-- ===== src/Thread/Life.antt =====
-- The owner of a thread and the thread in any order: what each waits for.
use ch_cpp_utils.Base.{ℕ, zero, suc, ◌+◌, ◌≤◌, ◌≡◌, refl, ap, ◌⊎◌, inl, inr, some, arith}
use ch_cpp_utils.Thread.{
  notify, wait, Owner, starting, started, destroying, destroyed, Runner, initializing, looping,
  leaving, exited, Thread, created, run, own,
}

pub data Step : Thread → Thread → Type 0 where
  runs : (t t' : Thread) → run t ≡ some t' → Step t t'
  owns : (t t' : Thread) → own t ≡ some t' → Step t t'

pub data Reachable : Thread → Type 0 where
  starts : Reachable created
  steps : (t t' : Thread) → Reachable t → Step t t' → Reachable t'

-- The waits that the owner is behind.
abbrev pub waited : Owner → ℕ
waited starting = 0
waited started = 1
waited destroying = 1
waited destroyed = 2

-- The notifications that the thread has sent.
abbrev pub notified : Runner → ℕ
notified initializing = 0
notified looping = 1
notified leaving = 1
notified exited = 2

abbrev pub IsBalanced : Thread → Type 0
IsBalanced t = t.semaphore.count + waited t.owner ≡ notified t.runner

run-IsBalanced : (t t' : Thread) → run t ≡ some t' → IsBalanced t → IsBalanced t'
unfolding run
run-IsBalanced t t' e h = go t.runner refl
  where
    go : (r : Runner) → t.runner ≡ r → IsBalanced t'
    go initializing q = ground (arith, ap notified q)
    go looping q = ground (arith, ap notified q)
    go leaving q = ground (arith, ap notified q)
    go exited q = absurd (ground arith)

own-IsBalanced : (t t' : Thread) → own t ≡ some t' → IsBalanced t → IsBalanced t'
unfolding own wait
own-IsBalanced t t' e h = go t.owner refl t.semaphore.count refl
  where
    go : (o : Owner) → t.owner ≡ o → (n : ℕ) → t.semaphore.count ≡ n → IsBalanced t'
    go starting q zero k = absurd (ground arith)
    go starting q (suc n) k = ground (arith, ap waited q)
    go started q n k = ground (arith, ap waited q)
    go destroying q zero k = absurd (ground arith)
    go destroying q (suc n) k = ground (arith, ap waited q)
    go destroyed q n k = absurd (ground arith)

Reachable-IsBalanced : (t : Thread) → Reachable t → IsBalanced t
Reachable-IsBalanced t starts = refl
Reachable-IsBalanced t (steps b _ r (runs _ _ e)) = run-IsBalanced b t e (Reachable-IsBalanced b r)
Reachable-IsBalanced t (steps b _ r (owns _ _ e)) = own-IsBalanced b t e (Reachable-IsBalanced b r)

-- How far the thread is when the owner is behind a wait.
abbrev pub HasReached : Owner → Runner → Type 0
HasReached starting r = Unit
HasReached started r = 1 ≤ notified r
HasReached destroying r = 1 ≤ notified r
HasReached destroyed r = r ≡ exited

all_notified : (r : Runner) → 2 ≤ notified r → r ≡ exited
all_notified initializing h = absurd (omega arith)
all_notified looping h = absurd (omega arith)
all_notified leaving h = absurd (omega arith)
all_notified exited h = refl

-- Whatever the order of their steps, start returns only when the thread has done its part before
-- the loop, and the destructor only when the thread has left the loop and sent its last
-- notification.
pub Reachable-HasReached : (t : Thread) → Reachable t → HasReached t.owner t.runner
Reachable-HasReached t r = go t.owner refl
  where
    balanced : t.semaphore.count + waited t.owner ≡ notified t.runner
    balanced = Reachable-IsBalanced t r

    go : (o : Owner) → t.owner ≡ o → HasReached o t.runner
    go starting q = tt
    go started q = omega (arith, balanced, ap waited q)
    go destroying q = omega (arith, balanced, ap waited q)
    go destroyed q = all_notified t.runner (omega (arith, balanced, ap waited q))

owner_moves :
    (t : Thread)
    → IsBalanced t
    → t.runner ≡ exited
    → (t.owner ≡ destroyed) ⊎ ((t' : Thread) × (own t ≡ some t'))
unfolding own wait
owner_moves t h x = go t.owner refl t.semaphore.count refl
  where
    go :
        (o : Owner)
        → t.owner ≡ o
        → (n : ℕ) → t.semaphore.count ≡ n
        → (t.owner ≡ destroyed) ⊎ ((t' : Thread) × (own t ≡ some t'))
    go destroyed q n k = inl q
    go started q n k = inr (record t { owner = destroying }, ground arith)
    go starting q zero k = absurd (omega (arith, h, k, ap waited q, ap notified x))
    go starting q (suc n) k =
        inr (record t { semaphore = record { count = n }; owner = started }, ground arith)
    go destroying q zero k = absurd (omega (arith, h, k, ap waited q, ap notified x))
    go destroying q (suc n) k =
        inr (record t { semaphore = record { count = n }; owner = destroyed }, ground arith)

-- Until the destructor has returned and the thread has sent its last notification, one of the two
-- can go on, if the thread in its loop is given an exit job, as a step takes it to be.
pub no_deadlock :
    (t : Thread)
    → Reachable t
    → ((t.owner ≡ destroyed) × (t.runner ≡ exited)) ⊎ ((t' : Thread) × Step t t')
unfolding run
no_deadlock t r = go t.runner refl
  where
    go :
        (x : Runner)
        → t.runner ≡ x
        → ((t.owner ≡ destroyed) × (t.runner ≡ exited)) ⊎ ((t' : Thread) × Step t t')
    go initializing q =
        let t' : Thread = record t { semaphore = notify t.semaphore; runner = looping } in
        inr (t', runs t t' (ground arith))
    go looping q =
        let t' : Thread = record t { runner = leaving } in inr (t', runs t t' (ground arith))
    go leaving q =
        let t' : Thread = record t { semaphore = notify t.semaphore; runner = exited } in
        inr (t', runs t t' (ground arith))
    go exited q = elim (owner_moves t (Reachable-IsBalanced t r) q) [
      | inl over ↦ inl (over, q)
      | inr (t', e) ↦ inr (t', owns t t' e)
    ]
