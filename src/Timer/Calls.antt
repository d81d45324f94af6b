-- ===== src/Timer/Calls.antt =====
-- The calls of a timer keep what holds of it.
use ch_cpp_utils.Base.{
  ℕ, ◌≡◌, ◌≢◌, refl, sym, subst, true, false, Option, none, some, List, [], ◌∷◌, ◌++◌, length,
  get_elem?, modify, get_elem?-modify, get_elem?-append-last, nat_beq, nat_beq_iff, if◌then◌else◌,
  arith, Bool-cases, inl, inr,
}
use ch_cpp_utils.ThreadPool.{ThreadPool}
use ch_cpp_utils.Timer.{
  TimeVal, TimerEvent, Timer, new_timer_event, set_event, add_dispatch, create_, create, with_event,
  restart, destroy, EvCall, event_remove_timer, evtimer_del, event_free, free, expires,
}
use ch_cpp_utils.Timer.Libevent.{
  status, Obeys, status-destroyed, status-stopped, destroyed-Obeys, stopped-Obeys,
}
use ch_cpp_utils.Timer.Ownership.{IsTimer, IsTimerBut, create_-IsTimer}

pub with_event-eq-some :
    (i e : ℕ) (te : TimerEvent) (t : Timer)
    → with_event i t ≡ some (te, e)
    → (get_elem? t.timer_events i ≡ some (some te)) × (te.event ≡ some e)
unfolding with_event
with_event-eq-some i e te t h = go (get_elem? t.timer_events i) refl
  where
    go :
        (o : Option (Option TimerEvent))
        → get_elem? t.timer_events i ≡ o
        → (get_elem? t.timer_events i ≡ some (some te)) × (te.event ≡ some e)
    go none q = absurd (ground arith)
    go (some none) q = absurd (ground arith)
    go (some (some tj)) q = ground arith

pub with_event-some :
    (i : ℕ) (te : TimerEvent) (t : Timer)
    → IsTimer t
    → get_elem? t.timer_events i ≡ some (some te)
    → (e : ℕ) × (with_event i t ≡ some (te, e))
unfolding with_event
with_event-some i te t w at_i = let (e, b, k, s) = w.owned i te at_i in (e, ground (arith))

-- A timer whose timer event `i` has given its event back, by calls that leave no other event changed.
released-IsTimerBut :
    (i e : ℕ) (te : TimerEvent) (o : Option TimerEvent) (t : Timer) (h : List EvCall)
    (p : ThreadPool)
    → IsTimer t
    → get_elem? t.timer_events i ≡ some (some te)
    → te.event ≡ some e
    → Obeys h
    → ((d : ℕ) → status d h ≡ (if nat_beq e d then none else status d t.calls))
    → IsTimerBut i
        (record t { timer_events = modify i (λ _. o) t.timer_events; calls = h; pool = p })
released-IsTimerBut i e te o t h p w at_i ev obeys st =
    let (e', b', k', s') = w.owned i te at_i in
    record {
      obeys = obeys;
      fresh = λ d l. ground (arith, st d, w.fresh d l);
      there = (o, ground (arith, at_i, get_elem?-modify i i (λ _. o) t.timer_events));
      owned = λ j tj ne at_j.
          let (d, b, k, s) =
            w.owned j tj (
              ground
                (arith, at_j, nat_beq_iff i j, get_elem?-modify i j (λ _. o) t.timer_events)) in
          (d, b, k, ground (arith, st d, nat_beq_iff e d));
      unleaked = λ d j b s. elim (Bool-cases (nat_beq e d)) [
        | inl q ↦ absurd (ground (arith, st d, s, q))
        | inr q ↦
            let (tj, at_j, k) = w.unleaked d j b (ground (arith, st d, s, q)) in
            let ne : j ≢ i =
              λ (x : j ≡ i). absurd (ground (arith, x, at_i, at_j, ev, k, nat_beq_iff e d, q)) in
            (
              ne,
              tj,
              ground
                  (arith, ne, at_j, nat_beq_iff i j, get_elem?-modify i j (λ _. o) t.timer_events),
              k,
            )
      ];
    }

deleted-IsTimer :
    (i : ℕ) (t : Timer) → IsTimerBut i t → get_elem? t.timer_events i ≡ some none → IsTimer t
deleted-IsTimer i t w at_i = record {
  obeys = w.obeys;
  fresh = w.fresh;
  owned = λ j te at_j. w.owned j te (λ (x : j ≡ i). absurd (ground (arith, x, at_i, at_j))) at_j;
  unleaked = λ e j b s. let (ne, te, at_j, k) = w.unleaked e j b s in (te, at_j, k);
}

-- The timer that `restart` gives create_.
abbrev pub stopped : ℕ → TimerEvent → ℕ → Timer → Timer
stopped i te e t = add_dispatch i (record t {
  timer_events = modify i (λ _. some (set_event none te)) t.timer_events;
  calls = free e ∷ evtimer_del e ∷ event_remove_timer e ∷ t.calls;
})

abbrev pub destroyed : ℕ → ℕ → Timer → Timer
destroyed i e t = record t {
  timer_events = modify i (λ _. none) t.timer_events;
  calls = event_free e ∷ evtimer_del e ∷ t.calls;
}

pub restart-eq-some :
    (i : ℕ) (t t' : Timer)
    → restart i t ≡ some t'
    → (te : TimerEvent) × (e : ℕ) × (with_event i t ≡ some (te, e))
      × (t' ≡ create_ i (set_event none te) (stopped i te e t))
unfolding restart
restart-eq-some i t t' h = go (with_event i t) refl
  where
    go :
        (o : Option (TimerEvent × ℕ))
        → with_event i t ≡ o
        → (te : TimerEvent) × (e : ℕ) × (with_event i t ≡ some (te, e))
          × (t' ≡ create_ i (set_event none te) (stopped i te e t))
    go none q = absurd (ground arith)
    go (some (te, e)) q = (te, e, q, ground arith)

destroy-eq-some :
    (i : ℕ) (t t' : Timer)
    → destroy i t ≡ some t'
    → (te : TimerEvent) × (e : ℕ) × (with_event i t ≡ some (te, e)) × (t' ≡ destroyed i e t)
unfolding destroy
destroy-eq-some i t t' h = go (with_event i t) refl
  where
    go :
        (o : Option (TimerEvent × ℕ))
        → with_event i t ≡ o
        → (te : TimerEvent) × (e : ℕ) × (with_event i t ≡ some (te, e)) × (t' ≡ destroyed i e t)
    go none q = absurd (ground arith)
    go (some (te, e)) q = (te, e, q, ground arith)

pub restart-IsTimer : (i : ℕ) (t t' : Timer) → restart i t ≡ some t' → IsTimer t → IsTimer t'
restart-IsTimer i t t' h w =
    let (te, e, there, eq) = restart-eq-some i t t' h in
    let (at_i, ev) = with_event-eq-some i e te t there in
    let (e', b, k, s) = w.owned i te at_i in
    subst IsTimer (sym eq) (
      create_-IsTimer i (set_event none te) (stopped i te e t) (
        released-IsTimerBut i e te (some (set_event none te)) t _ _ w at_i ev
          (stopped-Obeys e i b t.calls (ground (arith, k, ev, s)) w.obeys)
          (λ d. status-stopped d e t.calls)))

pub destroy-IsTimer : (i : ℕ) (t t' : Timer) → destroy i t ≡ some t' → IsTimer t → IsTimer t'
destroy-IsTimer i t t' h w =
    let (te, e, there, eq) = destroy-eq-some i t t' h in
    let (at_i, ev) = with_event-eq-some i e te t there in
    let (e', b, k, s) = w.owned i te at_i in
    subst IsTimer (sym eq) (
      deleted-IsTimer i (destroyed i e t)
        (released-IsTimerBut i e te none t _ _ w at_i ev
          (destroyed-Obeys e i b t.calls (ground (arith, k, ev, s)) w.obeys)
          (λ d. status-destroyed d e t.calls))
        (ground (arith, at_i, nat_beq_iff i i, get_elem?-modify i i (λ _. none) t.timer_events)))

none_of_last : (xs : List (Option TimerEvent)) → get_elem? xs (length xs) ≡ none
none_of_last [] = refl
none_of_last (x ∷ xs) = none_of_last xs

pub create-IsTimer :
    (tv : TimeVal) (callback : Option ℕ) (this_ : ℕ) (t : Timer)
    → IsTimer t
    → IsTimer (create tv callback this_ t).0
unfolding create
create-IsTimer tv callback this_ t w =
    let te = new_timer_event tv callback this_ in
    let i = length t.timer_events in
    let at_end = none_of_last t.timer_events in
    create_-IsTimer i te (record t { timer_events = t.timer_events ++ some te ∷ [] })
      (record {
        obeys = w.obeys;
        fresh = w.fresh;
        there = (
          some te,
          ground (arith, nat_beq_iff i i, get_elem?-append-last i t.timer_events (some te)),
        );
        owned = λ j tj ne at_j. w.owned j tj (
            ground
              (arith, at_j, ne, nat_beq_iff i j, get_elem?-append-last j t.timer_events (some te)));
        unleaked = λ e j b s.
            let (tj, at_j, k) = w.unleaked e j b s in
            let ne : j ≢ i = λ (x : j ≡ i). absurd (ground (arith, x, at_j, at_end)) in
            (
              ne,
              tj,
              ground (
                arith,
                at_j,
                ne,
                nat_beq_iff i j,
                get_elem?-append-last j t.timer_events (some te),
              ),
              k,
            );
      })

-- An event that is pending ends its time.
abbrev pub expire : ℕ → Timer → Timer
expire e t = record t { calls = expires e ∷ t.calls }

pub expire-IsTimer :
    (e i : ℕ) (t : Timer) → status e t.calls ≡ some (i, true) → IsTimer t → IsTimer (expire e t)
unfolding status
expire-IsTimer e i t p w = record {
  obeys = ((i, p), w.obeys);
  fresh = λ d l. ground (arith, p, w.fresh d l);
  owned = λ j tj at_j.
      let (d, b, k, s) = w.owned j tj at_j in
      elim (Bool-cases (nat_beq e d)) [
        | inl q ↦ (d, false, k, ground (arith, q, s))
        | inr q ↦ (d, b, k, ground (arith, q, s))
      ];
  unleaked = λ d j b s. elim (Bool-cases (nat_beq e d)) [
    | inl q ↦ w.unleaked d j true (ground (arith, p, q, s, nat_beq_iff e d))
    | inr q ↦ w.unleaked d j b (ground (arith, q, s))
  ];
}
