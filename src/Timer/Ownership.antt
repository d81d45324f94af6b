-- ===== src/Timer/Ownership.antt =====
-- Each timer event has one event of libevent, which it alone uses, through all calls.
use ch_cpp_utils.Base.{
  ℕ, ◌≤◌, ◌≡◌, ◌≢◌, Bool, true, Option, none, some, List, get_elem?, get_elem?-modify, nat_beq,
  nat_beq_iff, arith, Bool-cases, inl, inr,
}
use ch_cpp_utils.Timer.{TimerEvent, Timer, set_event, create_, EvCall}
use ch_cpp_utils.Timer.Libevent.{status, Obeys, status-created, created-Obeys}

-- The event of a timer event, which was made for it.
abbrev pub Owns : List EvCall → ℕ → TimerEvent → Type 0
Owns h i te = (e : ℕ) × (b : Bool) × (te.event ≡ some e) × (status e h ≡ some (i, b))

-- What holds of every timer that calls make: libevent is used as it asks, and the events that are
-- not released are those of the timer events that are not deleted, one for each.
pub record IsTimer (t : Timer) : Type 0 where
  pub obeys : Obeys t.calls
  pub fresh : (e : ℕ) → t.made ≤ e → status e t.calls ≡ none
  pub owned :
      (i : ℕ) (te : TimerEvent) → get_elem? t.timer_events i ≡ some (some te) → Owns t.calls i te
  pub unleaked :
      (e i : ℕ) (b : Bool)
      → status e t.calls ≡ some (i, b)
      → (te : TimerEvent) × (get_elem? t.timer_events i ≡ some (some te)) × (te.event ≡ some e)

-- The same of all timer events but `i`, which has no event.
pub record IsTimerBut (i : ℕ) (t : Timer) : Type 0 where
  pub obeys : Obeys t.calls
  pub fresh : (e : ℕ) → t.made ≤ e → status e t.calls ≡ none
  pub there : (o : Option TimerEvent) × (get_elem? t.timer_events i ≡ some o)
  pub owned :
      (j : ℕ) (te : TimerEvent)
      → j ≢ i
      → get_elem? t.timer_events j ≡ some (some te)
      → Owns t.calls j te
  pub unleaked :
      (e j : ℕ) (b : Bool)
      → status e t.calls ≡ some (j, b)
      → (j ≢ i)
        × (te : TimerEvent) × (get_elem? t.timer_events j ≡ some (some te))
        × (te.event ≡ some e)

pub create_-IsTimer :
    (i : ℕ) (te : TimerEvent) (t : Timer) → IsTimerBut i t → IsTimer (create_ i te t)
unfolding create_
create_-IsTimer i te t w =
    let (o, there) = w.there in
    record {
      obeys = created-Obeys t.made i te.tv t.calls (w.fresh t.made (omega arith)) w.obeys;
      fresh = λ e l. ground (
        arith,
        status-created e t.made i te.tv t.calls,
        nat_beq_iff t.made e,
        w.fresh e (omega (arith, l)),
      );
      owned = λ j tj at_j. elim (Bool-cases (nat_beq i j)) [
        | inl q ↦ (
          t.made,
          true,
          ground (
            arith,
            nat_beq_iff i j,
            q,
            at_j,
            there,
            get_elem?-modify i j (λ _. some (set_event (some t.made) te)) t.timer_events,
          ),
          ground (
            arith,
            nat_beq_iff i j,
            status-created t.made t.made i te.tv t.calls,
            nat_beq_iff t.made t.made,
          ),
        )
        | inr q ↦
            let (e, b, k, s) =
              w.owned j tj (λ (x : j ≡ i). ground (arith, nat_beq_iff i j))
                (ground (
                  arith,
                  at_j,
                  q,
                  get_elem?-modify i j (λ _. some (set_event (some t.made) te)) t.timer_events,
                )) in
            (
              e,
              b,
              k,
              ground (
                arith,
                status-created e t.made i te.tv t.calls,
                nat_beq_iff t.made e,
                w.fresh t.made (omega arith),
              ),
            )
      ];
      unleaked = λ e j b s. elim (Bool-cases (nat_beq t.made e)) [
        | inl q ↦ (
          set_event (some t.made) te,
          ground (
            arith,
            q,
            s,
            there,
            status-created e t.made i te.tv t.calls,
            nat_beq_iff i j,
            get_elem?-modify i j (λ _. some (set_event (some t.made) te)) t.timer_events,
          ),
          ground (arith, nat_beq_iff t.made e),
        )
        | inr q ↦
            let (ne, tj, at_j, k) =
              w.unleaked e j b (ground (arith, q, s, status-created e t.made i te.tv t.calls)) in
            (
              tj,
              ground (
                arith,
                at_j,
                nat_beq_iff i j,
                get_elem?-modify i j (λ _. some (set_event (some t.made) te)) t.timer_events,
              ),
              k,
            )
      ];
    }
