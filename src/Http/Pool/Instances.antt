-- ===== src/Http/Pool/Instances.antt =====
-- Which client NewInstance answers.
use ch_cpp_utils.Base.{
  ℕ, zero, suc, ◌≡◌, ◌≢◌, ◌↔◌, refl, ap, sym, ◌∙◌, subst, true, none, some, List, [], ◌∷◌, ◌++◌,
  Str, str_eq, str_beq_iff, length, take, drop, take-append, drop-append, rfind, rfind-append,
  get_elem?, All, lookup, emplace, lookup-emplace, arith, Option-cases, inl, inr,
}
use ch_cpp_utils.Base.Decimal.{is_digit, number, to_string, to_string_lem}
use ch_cpp_utils.Http.Pool.{
  HttpClient, new_client, Clients, client_key, new_instance, delete_instances,
}

plain_digits : (s : Str) → All (λ c. is_digit c ≡ true) s → All (λ c. c ≢ b':') s
plain_digits [] h = tt
plain_digits (c ∷ s) (h, hs) = (λ (e : c ≡ b':'). ground arith, plain_digits s hs)

last_colon :
    (hostname : Str) (port : ℕ) → rfind (client_key hostname port) b':' ≡ some (length hostname)
last_colon hostname port =
    rfind-append b':' hostname (to_string port)
      (plain_digits (to_string port) (to_string_lem port).1)

to_string_inj : (m n : ℕ) → to_string m ≡ to_string n → m ≡ n
to_string_inj m n e = sym (to_string_lem m).2 ∙ ap number e ∙ (to_string_lem n).2

some_inj {ℓ} : {A : Type ℓ} (a b : A) → some a ≡ some b → a ≡ b
some_inj a b e = cc

-- Two clients have the same key only if they have the same host and port.
client_key_inj : (h h' : Str) (p p' : ℕ) → client_key h p ≡ client_key h' p' → (h ≡ h') × (p ≡ p')
client_key_inj h h' p p' e =
    let n =
      some_inj (length h) (length h')
        (sym (last_colon h p) ∙ ap (λ s. rfind s b':') e ∙ last_colon h' p') in
    (
      sym (take-append h (b':' ∷ to_string p))
          ∙ ap (λ k. take k (client_key h p)) n
          ∙ ap (take (length h')) e
          ∙ take-append h' (b':' ∷ to_string p'),
      to_string_inj p p' (
          ap (drop 1) (
            sym (drop-append h (b':' ∷ to_string p))
            ∙ ap (λ k. drop k (client_key h p)) n
            ∙ ap (drop (length h')) e
            ∙ drop-append h' (b':' ∷ to_string p'))),
    )

-- The client at a pointer.
abbrev pub IsClient : Str → ℕ → ℕ → Clients → Type 0
IsClient h p i s =
    (c : HttpClient) × (get_elem? s.client_heap i ≡ some c) × (c.hostname ≡ h) × (c.port ≡ p)

-- Each entry of the map names the client of its key.
abbrev pub IsRegistry : Clients → Type 0
IsRegistry s =
    (k : Str) (i : ℕ)
    → lookup k s.clients ≡ some i
    → (h : Str) × (p : ℕ) × (client_key h p ≡ k) × IsClient h p i s

-- The clients that calls make.
pub data Reachable : Clients → Type 0 where
  starts : Reachable (record { clients = []; client_heap = [] })
  makes : (h : Str) (p : ℕ) (s : Clients) → Reachable s → Reachable (new_instance h p s).0
  deletes : (s : Clients) → Reachable s → Reachable (delete_instances s)

-- What NewInstance answers, in its two branches.
module _ (h : Str) (p : ℕ) (s : Clients) where
  abbrev added : Clients
  added = record s {
    clients = emplace (client_key h p) (length s.client_heap) s.clients;
    client_heap = s.client_heap ++ new_client h p ∷ [];
  }

  new_instance-new :
      lookup (client_key h p) s.clients ≡ none → new_instance h p s ≡ (added, length s.client_heap)
  unfolding new_instance
  new_instance-new e = ground (arith, e)

  new_instance-old :
      (i : ℕ) → lookup (client_key h p) s.clients ≡ some i → new_instance h p s ≡ (s, i)
  unfolding new_instance
  new_instance-old i e = ground (arith, e)

kept_elem {ℓ} :
    {A : Type ℓ} (xs : List A) (i : ℕ) (x y : A)
    → get_elem? xs i ≡ some x
    → get_elem? (xs ++ y ∷ []) i ≡ some x
kept_elem [] i x y e = absurd (cc)
kept_elem (z ∷ xs) zero x y e = e
kept_elem (z ∷ xs) (suc i) x y e = kept_elem xs i x y e

last_elem {ℓ} : {A : Type ℓ} (xs : List A) (y : A) → get_elem? (xs ++ y ∷ []) (length xs) ≡ some y
last_elem [] y = refl
last_elem (z ∷ xs) y = last_elem xs y

-- A call of NewInstance keeps the clients that are there.
new_instance-keeps :
    (h h' : Str) (p p' i : ℕ) (s : Clients)
    → IsClient h' p' i s
    → IsClient h' p' i (new_instance h p s).0
new_instance-keeps h h' p p' i s (c, there, a, b) =
    elim (Option-cases (lookup (client_key h p) s.clients)) [
      | inl e ↦
          subst (λ (r : Clients × ℕ). IsClient h' p' i r.0) (sym (new_instance-new h p s e))
            (c, kept_elem s.client_heap i c (new_client h p) there, a, b)
      | inr (j, e) ↦
          subst (λ (r : Clients × ℕ). IsClient h' p' i r.0) (sym (new_instance-old h p s j e))
            (c, there, a, b)
    ]

-- Behind a call of NewInstance its key has an entry, the pointer that was answered.
new_instance-entry :
    (h : Str) (p : ℕ) (s : Clients)
    → lookup (client_key h p) (new_instance h p s).0.clients ≡ some (new_instance h p s).1
new_instance-entry h p s = elim (Option-cases (lookup (client_key h p) s.clients)) [
  | inl e ↦
      subst (λ (r : Clients × ℕ). lookup (client_key h p) r.0.clients ≡ some r.1)
        (sym (new_instance-new h p s e))
        (ground (
          arith,
          e,
          str_beq_iff (client_key h p) (client_key h p),
          lookup-emplace (client_key h p) (client_key h p) (length s.client_heap) s.clients,
        ))
  | inr (j, e) ↦
      subst (λ (r : Clients × ℕ). lookup (client_key h p) r.0.clients ≡ some r.1)
        (sym (new_instance-old h p s j e)) e
]

added-IsRegistry :
    (h : Str) (p : ℕ) (s : Clients)
    → lookup (client_key h p) s.clients ≡ none
    → IsRegistry s
    → IsRegistry (added h p s)
added-IsRegistry h p s e r k i there = elim (Option-cases (lookup k s.clients)) [
  | inl n ↦
      let key = client_key h p in
      let moved = lookup-emplace key k (length s.client_heap) s.clients in
      let at_end : i ≡ length s.client_heap =
        ground (arith, e, n, there, moved, str_beq_iff key k) in
      let same : key ≡ k = ground (arith, e, n, there, moved, str_beq_iff key k) in
      (
        h,
        p,
        same,
        (
          new_client h p,
          ap (get_elem? (s.client_heap ++ new_client h p ∷ [])) at_end
              ∙ last_elem s.client_heap (new_client h p),
          refl,
          refl,
        ),
      )
  | inr (j, n) ↦
      let key = client_key h p in
      let moved = lookup-emplace key k (length s.client_heap) s.clients in
      let old : lookup k s.clients ≡ some i =
        ground (arith, e, n, there, moved, str_beq_iff key k) in
      let (h', p', q, (c, at_i, a, b)) = r k i old in
      (h', p', q, (c, kept_elem s.client_heap i c (new_client h p) at_i, a, b))
]

deleted-IsRegistry : (s : Clients) → IsRegistry (delete_instances s)
unfolding delete_instances lookup
deleted-IsRegistry s k i there = absurd (cc)

Reachable-IsRegistry : (s : Clients) → Reachable s → IsRegistry s
unfolding lookup
Reachable-IsRegistry s starts = λ k i there. absurd (cc)
Reachable-IsRegistry s (makes h p b r) = elim (Option-cases (lookup (client_key h p) b.clients)) [
  | inl e ↦
      subst (λ (x : Clients × ℕ). IsRegistry x.0) (sym (new_instance-new h p b e))
        (added-IsRegistry h p b e (Reachable-IsRegistry b r))
  | inr (j, e) ↦
      subst (λ (x : Clients × ℕ). IsRegistry x.0) (sym (new_instance-old h p b j e))
        (Reachable-IsRegistry b r)
]
Reachable-IsRegistry s (deletes b r) = deleted-IsRegistry b

-- The client that NewInstance answers is one of its host and port.
new_instance-IsClient :
    (h : Str) (p : ℕ) (s : Clients)
    → Reachable s
    → IsClient h p (new_instance h p s).1 (new_instance h p s).0
new_instance-IsClient h p s r =
    let (h', p', q, c) =
      Reachable-IsRegistry (new_instance h p s).0 (makes h p s r) (client_key h p)
        (new_instance h p s).1 (new_instance-entry h p s) in
    let (a, b) = client_key_inj h' h p' p q in let (d, there, e, f) = c in (d, there, e ∙ a, f ∙ b)

same_client :
    (h h' : Str) (p p' i : ℕ) (s : Clients)
    → IsClient h p i s
    → IsClient h' p' i s
    → (h' ≡ h) × (p' ≡ p)
same_client h h' p p' i s (c, there, a, b) (d, there', a', b') =
    let e : d ≡ c = some_inj d c (sym there' ∙ there) in
    (
      sym a' ∙ ap (λ (x : HttpClient). x.hostname) e ∙ a,
      sym b' ∙ ap (λ (x : HttpClient). x.port) e ∙ b,
    )

-- After any calls of NewInstance and DeleteInstances, NewInstance answers a client of its host and
-- port, and its next call answers the same client exactly if it asks for the same host and port.
pub new_instance-same :
    (s : Clients)
    → Reachable s
    → (h : Str) (p : ℕ)
    → IsClient h p (new_instance h p s).1 (new_instance h p s).0
      × ((h' : Str) (p' : ℕ)
          → ((new_instance h' p' (new_instance h p s).0).1 ≡ (new_instance h p s).1)
            ↔ ((h' ≡ h) × (p' ≡ p)))
new_instance-same s r h p =
    let s' = (new_instance h p s).0 in
    let i = (new_instance h p s).1 in
    let first = new_instance-IsClient h p s r in
    (
      first,
      λ h' p'. (
        λ e.
            same_client h h' p p' i (new_instance h' p' s').0
              (new_instance-keeps h' h p' p i s' first)
              (subst (λ j. IsClient h' p' j (new_instance h' p' s').0) e
                (new_instance-IsClient h' p' s' (makes h p s r))),
        λ (a, b).
            subst (λ x. (new_instance x p' s').1 ≡ i) (sym a)
              (subst (λ x. (new_instance h x s').1 ≡ i) (sym b)
                (ap (λ (x : Clients × ℕ). x.1)
                  (new_instance-old h p s' i (new_instance-entry h p s)))),
      ),
    )
