-- ===== src/Watch/Laws.antt =====
-- What Run of pkg/storage/memorystorage/watch.go sends.
use cloudetcd.Base.{
  ℕ, zero, suc, ◌+◌, ◌-◌, ◌≤◌, ◌<◌, ◌≡◌, refl, sym, ap, ◌∙◌, true, false, List, [], ◌∷◌, ◌++◌,
  arith, length, ltb, Bool-cases, inl, inr,
}
use mathlib.Core.List.{append-nil, append_assoc}
use native.Mathlib.Nat.{add-zero, sub-zero}
use cloudetcd.Event.{Event}
use cloudetcd.Outcome.{Outcome, ok, ◌>>=◌, >>=-eq-ok}
use cloudetcd.Storage.{Fetch}
use cloudetcd.Watch.{
  Watcher, WatchResponse, collect, select_events, should_send, in_range, gather, response_of,
  send_up_to, max_revisions_per_response, max_events_per_response,
}

-- The events of the `n` revisions behind `last`, in order.
unfoldable pub all_events : Watcher → (ℕ → Fetch) → ℕ → ℕ → Outcome (List Event)
all_events w fetch last zero = ok []
all_events w fetch last (suc n) = do
  evs ← collect w (fetch (suc last))
  rest ← all_events w fetch (suc last) n
  ok (evs ++ rest)

-- The events of all responses, in the order in which they are sent.
unfoldable pub sent : List WatchResponse → List Event
sent [] = []
sent (r ∷ rs) = r.events ++ sent rs

-- What one gathering takes of the `n` revisions that are left.
record Gathered (w : Watcher) (fetch : ℕ → Fetch) (rounds last n : ℕ) (events evs : List Event)
    : Type 0 where
  taken : ℕ
  taken_events : List Event
  later : List Event
  within : taken ≤ n
  progress : 0 < rounds → 0 < n → length events < max_events_per_response → 0 < taken
  result : gather rounds w fetch (last + n) last events ≡ ok (last + taken, events ++ taken_events)
  left : all_events w fetch (last + taken) (n - taken) ≡ ok later
  split : evs ≡ taken_events ++ later

Gathered-none :
    (w : Watcher) (fetch : ℕ → Fetch) (rounds last n : ℕ) (events evs : List Event)
    → all_events w fetch last n ≡ ok evs
    → gather rounds w fetch (last + n) last events ≡ ok (last, events)
    → (0 < rounds → 0 < n → length events < max_events_per_response → ⊥)
    → Gathered w fetch rounds last n events evs
Gathered-none w fetch rounds last n events evs all e stops = record {
  taken = 0;
  taken_events = [];
  later = evs;
  within = omega arith;
  progress = λ a b c. absurd (stops a b c);
  result = rw (add-zero, append-nil) e;
  left = rw (add-zero, sub-zero) all;
  split = refl;
}

Gathered-one :
    (w : Watcher) (fetch : ℕ → Fetch) (rounds last n : ℕ) (events evs₁ rest : List Event)
    → collect w (fetch (suc last)) ≡ ok evs₁
    → ltb (length events) max_events_per_response ≡ true
    → Gathered w fetch rounds (suc last) n (events ++ evs₁) rest
    → Gathered w fetch (suc rounds) last (suc n) events (evs₁ ++ rest)
unfolding gather
Gathered-one w fetch rounds last n events evs₁ rest e room g =
    let behind : ltb last (last + suc n) ≡ true = ground arith in
    let same : last + suc n ≡ suc last + n = omega arith in
    let same' : last + suc g.taken ≡ suc last + g.taken = omega arith in
    let less : suc n - suc g.taken ≡ n - g.taken = omega arith in
    record {
      taken = suc g.taken;
      taken_events = evs₁ ++ g.taken_events;
      later = g.later;
      within = omega (arith, g.within);
      progress = λ a b c. omega arith;
      result =
          rw (behind, gather)
            (rw room (rw e (rw (same, same', ← append_assoc events evs₁ g.taken_events) g.result)));
      left = rw (same', less) g.left;
      split = ap (◌++◌ evs₁) g.split ∙ sym (append_assoc evs₁ g.taken_events g.later);
    }

gather_lem :
    (w : Watcher) (fetch : ℕ → Fetch) (rounds last n : ℕ) (events evs : List Event)
    → all_events w fetch last n ≡ ok evs
    → Gathered w fetch rounds last n events evs
unfolding all_events gather
gather_lem w fetch zero last n events evs all =
    Gathered-none w fetch zero last n events evs all refl (λ a b c. omega arith)
gather_lem w fetch (suc rounds) last zero events evs all =
    let stop : ltb last (last + 0) ≡ false = ground arith in
    Gathered-none w fetch (suc rounds) last zero events evs all (rw (stop, gather))
      (λ a b c. omega arith)
gather_lem w fetch (suc rounds) last (suc n) events evs all =
    let (evs₁, e₁, all₁) = >>=-eq-ok (collect w (fetch (suc last))) _ all in
    let (rest, e₂, all₂) = >>=-eq-ok (all_events w fetch (suc last) n) _ all₁ in
    let joined : evs₁ ++ rest ≡ evs = cc in
    elim (Bool-cases (ltb (length events) max_events_per_response)) [
      | inl room ↦ rw joined at (
          Gathered-one w fetch rounds last n events evs₁ rest e₁ room
            (gather_lem w fetch rounds (suc last) n (events ++ evs₁) rest e₂))
      | inr full ↦
          let behind : ltb last (last + suc n) ≡ true = ground arith in
          Gathered-none w fetch (suc rounds) last (suc n) events evs all
            (rw (behind, gather) (rw full)) (λ a b c. ground arith)
    ]

select_events-done :
    (w : Watcher) (d : ℕ) (events : List Event)
    → select_events (record w { watch_done_revision = d }) events ≡ select_events w events
unfolding select_events should_send in_range
select_events-done w d [] = refl
select_events-done w d (event ∷ events) = rw (select_events-done w d events)

collect-done :
    (w : Watcher) (d : ℕ) (f : Fetch)
    → collect (record w { watch_done_revision = d }) f ≡ collect w f
unfolding collect
collect-done w d f = simp (select_events-done w d)

all_events-done :
    (w : Watcher) (d : ℕ) (fetch : ℕ → Fetch) (last n : ℕ)
    → all_events (record w { watch_done_revision = d }) fetch last n ≡ all_events w fetch last n
unfolding all_events
all_events-done w d fetch last zero = refl
all_events-done w d fetch last (suc n) =
    simp (collect-done w d (fetch (suc last)), all_events-done w d fetch (suc last) n)

sent-response :
    (w : Watcher) (last : ℕ) (events : List Event) (rs : List WatchResponse)
    → sent (response_of w last events ++ rs) ≡ events ++ sent rs
unfolding sent response_of
sent-response w last [] rs = refl
sent-response w last (event ∷ events) rs = refl

nothing_left :
    (w : Watcher) (fetch : ℕ → Fetch) (evs : List Event)
    → all_events w fetch w.watch_done_revision 0 ≡ ok evs
    → (responses : List WatchResponse) × (◌≡◌ {A = Outcome (List WatchResponse × Watcher)}
        (ok ([], w))
        (ok (responses, record w { watch_done_revision = w.watch_done_revision + 0 })))
      × (sent responses ≡ evs)
unfolding all_events sent
nothing_left w fetch evs all = (
  [],
  ap {B = Outcome (List WatchResponse × Watcher)}
      (λ d. ok ([], record w { watch_done_revision = d })) (sym (add-zero w.watch_done_revision)),
  cc,
)

-- If the records behind the watcher's position can be collected up to the log position, then the
-- loop, with fuel for their number, ends at the log position and has sent exactly their events,
-- each once and in order, in however many responses.
pub send_up_to-sent :
    (fuel : ℕ) (fetch : ℕ → Fetch) (n : ℕ) (w : Watcher) (evs : List Event)
    → n ≤ fuel
    → all_events w fetch w.watch_done_revision n ≡ ok evs
    → (responses : List WatchResponse) × (send_up_to fuel fetch (w.watch_done_revision + n) w
        ≡ ok (responses, record w { watch_done_revision = w.watch_done_revision + n }))
      × (sent responses ≡ evs)
unfolding send_up_to
send_up_to-sent zero fetch zero w evs h all = nothing_left w fetch evs all
send_up_to-sent zero fetch (suc n) w evs h all = absurd (omega arith)
send_up_to-sent (suc fuel) fetch zero w evs h all =
    let stop : ltb w.watch_done_revision (w.watch_done_revision + 0) ≡ false = ground arith in
    rw (stop, send_up_to) (nothing_left w fetch evs all)
send_up_to-sent (suc fuel) fetch (suc n) w evs h all =
    let done = w.watch_done_revision in
    let g = gather_lem w fetch max_revisions_per_response done (suc n) [] evs all in
    let forward : 0 < g.taken = g.progress (omega arith) (omega arith) (omega arith) in
    let behind : ltb done (done + suc n) ≡ true = ground arith in
    let total : done + g.taken + (suc n - g.taken) ≡ done + suc n = omega (arith, g.within) in
    let w' : Watcher = record w { watch_done_revision = done + g.taken } in
    let left : all_events w' fetch (done + g.taken) (suc n - g.taken) ≡ ok g.later =
      all_events-done w (done + g.taken) fetch (done + g.taken) (suc n - g.taken) ∙ g.left in
    let (rs, ended, events) =
      send_up_to-sent fuel fetch (suc n - g.taken) w' g.later (omega (arith, forward)) left in
    (
      response_of w (done + g.taken) g.taken_events ++ rs,
      rw (behind, send_up_to) (rw g.result (rw (rw total at ended))),
      sent-response w (done + g.taken) g.taken_events rs ∙ rw events (sym g.split),
    )
