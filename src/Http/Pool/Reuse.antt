-- ===== src/Http/Pool/Reuse.antt =====
-- Which connection open hands out.
use ch_cpp_utils.Base.{
  ℕ, zero, suc, ◌<◌, ◌≡◌, inl, inr, refl, ap, sym, ◌∙◌, true, false, some, List, [], ◌∷◌, ◌++◌, Str,
  str_eq, length, is_nil, get_elem?, modify, length-modify, member, include, if◌then◌else◌, arith,
  subst,
}
use ch_cpp_utils.Http.Pool.{
  HttpConnection, HttpClient, new_connection, address, set_busy, close, opened, create,
  open_connection,
}
use ch_cpp_utils.Http.Pool.Steps.{
  Reachable, opens, closes, steps, taken, take_connection-eq-opened, take_connection_total,
}
use ch_cpp_utils.Http.Pool.Invariant.{taken-IsPool, create-IsPool, created_last}
use ch_cpp_utils.Http.Pool.Reached.{
  open_new, open_first, nonempty_length, created_in_heap, Reachable-IsPool,
}

created_there :
    (c : HttpClient)
    → get_elem? (create c).0.heap (length c.heap) ≡ some (new_connection c.hostname c.port)
unfolding create
created_there c = (created_last c.heap (new_connection c.hostname c.port)).0

pub at_start :
    (heap : List HttpConnection)
    → is_nil heap ≡ false
    → (d : HttpConnection) × (get_elem? heap 0 ≡ some d)
at_start [] n = cc
at_start (d ∷ heap) n = (d, refl)

when_free :
    (free : List Str) (n : ℕ) (a : Str)
    → ((free ≡ []) → n ≡ (if is_nil free then n else 0))
      × ((free ≡ a ∷ []) → 0 ≡ (if is_nil free then n else 0))
when_free free n a = (λ e. ground arith, λ e. ground arith)

-- However a client was used, open returns if no callback runs meanwhile: with a new connection if
-- no id is free, and else with the first connection that the client made; no id is free after it.
pub open_connection_total :
    (hostname : Str) (port : ℕ) (c : HttpClient)
    → Reachable hostname port c
    → (c' : HttpClient) × (open_connection false c
        ≡ opened c' (if is_nil c.free then length c.heap else 0))
      × (c'.free ≡ [])
open_connection_total hostname port c r =
    let h = Reachable-IsPool hostname port c r in
    let pointer = when_free c.free (length c.heap) (address hostname port) in
    elim h.free_id [
      | inl none_free ↦
          let h' = create-IsPool hostname port c h none_free in
          let c' : HttpClient = taken (length c.heap) (create c).0 in
          (
            c',
            open_new false c none_free
                ∙ take_connection_total (length c.heap) (create c).0
                    (new_connection c.hostname c.port) (created_there c)
                ∙ ap (opened c') (pointer.0 none_free),
            (taken-IsPool hostname port (length c.heap) (create c).0 (created_in_heap c) h').0,
          )
      | inr (is_free, n) ↦
          let (d, there) = at_start c.heap n in
          (
            taken 0 c,
            open_first hostname port false c h is_free n
                ∙ take_connection_total 0 c d there
                ∙ ap (opened (taken 0 c)) (pointer.1 is_free),
            (taken-IsPool hostname port 0 c (nonempty_length c.heap n) h).0,
          )
    ]

first_modify :
    (heap : List HttpConnection) (n : ℕ) (f : HttpConnection → HttpConnection)
    → 0 < n
    → get_elem? (modify n f heap) 0 ≡ get_elem? heap 0
unfolding modify
first_modify [] n f k = refl
first_modify (d ∷ heap) zero f k = absurd (omega arith)
first_modify (d ∷ heap) (suc n) f k = refl

first_append :
    (heap : List HttpConnection) (d e : HttpConnection)
    → get_elem? heap 0 ≡ some d
    → (0 < length heap) × (get_elem? (heap ++ e ∷ []) 0 ≡ some d)
first_append [] d e h = cc
first_append (c ∷ heap) d e h = (omega arith, h)

pub include_not_nil : (id : Str) (free : List Str) → is_nil (include id free) ≡ false
unfolding include member
include_not_nil id [] = refl
include_not_nil id (a ∷ free) = ground arith

pub close-free : (p : ℕ) (c : HttpClient) → is_nil (close p c).free ≡ false
unfolding close
close-free p c = include_not_nil _ c.free

-- The first connection is as it was after another one is opened and closed.
first_kept :
    (c : HttpClient) (d : HttpConnection)
    → get_elem? c.heap 0 ≡ some d
    → get_elem? (close (length c.heap) (taken (length c.heap) (create c).0)).heap 0 ≡ some d
unfolding close create
first_kept c d there =
    let (k, first) = first_append c.heap d (new_connection c.hostname c.port) there in
    let heap₁ =
      modify (length c.heap) (λ d. record d { connected = true })
        (c.heap ++ new_connection c.hostname c.port ∷ []) in
    first_modify (modify (length c.heap) (set_busy true) heap₁) (length c.heap) (set_busy false) k
    ∙ first_modify heap₁ (length c.heap) (set_busy true) k
    ∙ first_modify (c.heap ++ new_connection c.hostname c.port ∷ []) (length c.heap) _ k
    ∙ first

pub taken_length : (p : ℕ) (c : HttpClient) → length (taken p c).heap ≡ length c.heap
taken_length p c =
    length-modify p (set_busy true) (modify p (λ d. record d { connected = true }) c.heap)
    ∙ length-modify p (λ d. record d { connected = true }) c.heap

inside_taken :
    (c c₁ : HttpClient) (p : ℕ)
    → c₁ ≡ taken (length c.heap) (create c).0
    → p ≡ length c.heap
    → p < length c₁.heap
inside_taken c c₁ p e q =
    subst (λ n. n < length c₁.heap) (sym q)
      (subst (λ n. length c.heap < n)
        (sym (ap (λ (x : HttpClient). length x.heap) e ∙ taken_length (length c.heap) (create c).0))
        (created_in_heap c))

-- If a client has made a connection and no id is free, then closing the connection that open makes
-- gives the first connection out again, which is as it was, in use where it was in use.
pub first_connection_reused :
    (hostname : Str) (port : ℕ) (c c₁ : HttpClient) (p : ℕ) (d : HttpConnection)
    → Reachable hostname port c
    → c.free ≡ []
    → get_elem? c.heap 0 ≡ some d
    → open_connection false c ≡ opened c₁ p
    → (c₂ : HttpClient) × (open_connection false (close p c₁) ≡ opened c₂ 0)
      × (get_elem? (close p c₁).heap 0 ≡ some d)
first_connection_reused hostname port c c₁ p d r none_free there e =
    let took =
      take_connection-eq-opened false (length c.heap) p (create c).0 c₁
        (sym (open_new false c none_free) ∙ e) in
    let inside : p < length c₁.heap = inside_taken c c₁ p took.0 took.1 in
    let again =
      open_connection_total hostname port (close p c₁)
        (steps c₁ _ (steps c _ r (opens false c c₁ p e)) (closes p c₁ inside)) in
    (
      again.0,
      again.1
          ∙ ap (λ b. opened again.0 (if b then length (close p c₁).heap else 0)) (close-free p c₁),
      ap (λ (x : HttpClient). get_elem? (close p x).heap 0) took.0
          ∙ ap (λ q. get_elem? (close q (taken (length c.heap) (create c).0)).heap 0) took.1
          ∙ first_kept c d there,
    )
