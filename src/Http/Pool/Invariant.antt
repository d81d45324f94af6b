-- ===== src/Http/Pool/Invariant.antt =====
-- What the calls of src/http/client/http-client.cpp keep of the map and the set of a client.
use ch_cpp_utils.Base.{
  ℕ, zero, suc, ◌<◌, ◌≡◌, ◌⊎◌, inl, inr, refl, ap, sym, ◌∙◌, true, false, some, List, [], ◌∷◌, ◌++◌,
  Str, str_eq, str_beq_refl, length, is_nil, get_elem?, modify, length-modify, emplace, member,
  include, exclude, if◌then◌else◌, All, arith, subst,
}
use ch_cpp_utils.Http.Pool.{
  HttpConnection, HttpClient, new_connection, address, set_busy, id_at, create,
}
use ch_cpp_utils.Http.Pool.Steps.{id_of_found, taken}

pub created_last :
    (heap : List HttpConnection) (d : HttpConnection)
    → (get_elem? (heap ++ d ∷ []) (length heap) ≡ some d) × (length heap < length (heap ++ d ∷ []))
created_last [] d = (refl, omega arith)
created_last (c ∷ heap) d = let (a, b) = created_last heap d in (a, omega arith)

module _ (hostname : Str) (port : ℕ) where
  abbrev pub IsOwn : HttpConnection → Type 0
  IsOwn c = (c.hostname ≡ hostname) × (c.port ≡ port)

  -- The map holds the first connection of the heap and no other, and the only id that can be free
  -- is the one that all connections have.
  pub record IsPool (c : HttpClient) : Type 0 where
    pub own_hostname : c.hostname ≡ hostname
    pub own_port : c.port ≡ port
    pub own : All IsOwn c.heap
    pub first : c.connections ≡ (if is_nil c.heap then [] else (address hostname port, 0) ∷ [])
    pub free_id : (c.free ≡ []) ⊎ ((c.free ≡ address hostname port ∷ []) × (is_nil c.heap ≡ false))

  IsOwn-modify :
      (p : ℕ) (f : HttpConnection → HttpConnection) (heap : List HttpConnection)
      → ((c : HttpConnection) → IsOwn c → IsOwn (f c))
      → All IsOwn heap
      → All IsOwn (modify p f heap)
  unfolding modify
  IsOwn-modify p f [] k h = tt
  IsOwn-modify zero f (c ∷ heap) k (h, hs) = (k c h, hs)
  IsOwn-modify (suc p) f (c ∷ heap) k (h, hs) = (h, IsOwn-modify p f heap k hs)

  IsOwn-append :
      (heap : List HttpConnection) (c : HttpConnection)
      → All IsOwn heap
      → IsOwn c
      → All IsOwn (heap ++ c ∷ [])
  IsOwn-append [] c h k = (k, tt)
  IsOwn-append (d ∷ heap) c (h, hs) k = (h, IsOwn-append heap c hs k)

  is_nil-modify :
      (p : ℕ) (f : HttpConnection → HttpConnection) (heap : List HttpConnection)
      → is_nil (modify p f heap) ≡ is_nil heap
  unfolding modify
  is_nil-modify p f [] = refl
  is_nil-modify zero f (c ∷ heap) = refl
  is_nil-modify (suc p) f (c ∷ heap) = refl

  IsOwn-at :
      (p : ℕ) (heap : List HttpConnection)
      → All IsOwn heap
      → p < length heap
      → (c : HttpConnection) × (get_elem? heap p ≡ some c) × IsOwn c
  IsOwn-at p [] h k = absurd (omega arith)
  IsOwn-at zero (c ∷ heap) (h, hs) k = (c, refl, h)
  IsOwn-at (suc p) (c ∷ heap) (h, hs) k = IsOwn-at p heap hs (omega arith)

  id_at-eq :
      (p : ℕ) (c : HttpClient)
      → All IsOwn c.heap
      → p < length c.heap
      → id_at p c ≡ address hostname port
  id_at-eq p c h k =
      let (d, there, own) = IsOwn-at p c.heap h k in
      id_of_found p c d there ∙ ap (λ h. address h d.port) own.0 ∙ ap (address hostname) own.1

  -- A change of one connection that keeps its address.
  modify-IsPool :
      (p : ℕ) (f : HttpConnection → HttpConnection) (c : HttpClient)
      → ((d : HttpConnection) → IsOwn d → IsOwn (f d))
      → IsPool c
      → IsPool (record c { heap = modify p f c.heap })
  modify-IsPool p f c k h = record {
    own_hostname = h.own_hostname;
    own_port = h.own_port;
    own = IsOwn-modify p f c.heap k h.own;
    first = rw (is_nil-modify p f c.heap) h.first;
    free_id = rw (is_nil-modify p f c.heap) h.free_id;
  }

  include-IsPool :
      (c : HttpClient)
      → IsPool c
      → is_nil c.heap ≡ false
      → IsPool (record c { free = include (address hostname port) c.free })
  unfolding include member
  include-IsPool c h k = record {
    own_hostname = h.own_hostname;
    own_port = h.own_port;
    own = h.own;
    first = h.first;
    free_id = inr (included c.free h.free_id, k);
  }
    where
      included :
          (free : List Str)
          → (free ≡ []) ⊎ ((free ≡ address hostname port ∷ []) × (is_nil c.heap ≡ false))
          → include (address hostname port) free ≡ address hostname port ∷ []
      included free (inl e) = ground arith
      included free (inr (e, n)) = ground (arith, str_beq_refl (address hostname port))

  exclude-IsPool :
      (c : HttpClient)
      → IsPool c
      → (exclude (address hostname port) c.free ≡ [])
        × IsPool (record c { free = exclude (address hostname port) c.free })
  unfolding exclude
  exclude-IsPool c h = (
    nothing c.free h.free_id,
    record {
      own_hostname = h.own_hostname;
      own_port = h.own_port;
      own = h.own;
      first = h.first;
      free_id = inl (nothing c.free h.free_id);
    },
  )
    where
      nothing :
          (free : List Str)
          → (free ≡ []) ⊎ ((free ≡ address hostname port ∷ []) × (is_nil c.heap ≡ false))
          → exclude (address hostname port) free ≡ []
      nothing free (inl e) = ground arith
      nothing free (inr (e, n)) = ground (arith, str_beq_refl (address hostname port))

  in_heap :
      (p : ℕ) (f : HttpConnection → HttpConnection) (c : HttpClient)
      → p < length c.heap
      → p < length (modify p f c.heap)
  in_heap p f c k = rw (length-modify p f c.heap) k

  nonempty : (p : ℕ) (heap : List HttpConnection) → p < length heap → is_nil heap ≡ false
  nonempty p [] k = absurd (omega arith)
  nonempty p (c ∷ heap) k = refl

  -- A connection changes and its id becomes free.
  pub free-IsPool :
      (p : ℕ) (f : HttpConnection → HttpConnection) (c : HttpClient)
      → ((d : HttpConnection) → IsOwn d → IsOwn (f d))
      → p < length c.heap
      → IsPool c
      → IsPool (
          let c' = record c { heap = modify p f c.heap } in
          record c' { free = include (id_at p c') c'.free })
  free-IsPool p f c keeps k h =
      let c' : HttpClient = record c { heap = modify p f c.heap } in
      let h' = modify-IsPool p f c keeps h in
      subst (λ id. IsPool (record c' { free = include id c'.free }))
        (sym (id_at-eq p c' h'.own (in_heap p f c k)))
        (include-IsPool c' h' (nonempty p c'.heap (in_heap p f c k)))

  pub taken-IsPool :
      (p : ℕ) (c : HttpClient)
      → p < length c.heap
      → IsPool c
      → ((taken p c).free ≡ []) × IsPool (taken p c)
  taken-IsPool p c k h =
      let c₁ : HttpClient = record c {
        heap = modify p (λ d. record d { connected = true }) c.heap;
      } in
      let c₂ : HttpClient = record c₁ { heap = modify p (set_busy true) c₁.heap } in
      let h₂ =
        modify-IsPool p (set_busy true) c₁ (λ d o. o)
          (modify-IsPool p (λ d. record d { connected = true }) c (λ d o. o) h) in
      let there =
        in_heap p (set_busy true) c₁ (in_heap p (λ d. record d { connected = true }) c k) in
      subst (λ id. (exclude id c₂.free ≡ []) × IsPool (record c₂ { free = exclude id c₂.free }))
        (sym (id_at-eq p c₂ h₂.own there)) (exclude-IsPool c₂ h₂)

  emplace_first :
      (heap : List HttpConnection) (c : HttpConnection)
      → emplace
          (address hostname port)
          (length heap)
          (if is_nil heap then [] else (address hostname port, 0) ∷ [])
        ≡ (address hostname port, 0) ∷ []
  unfolding emplace
  emplace_first [] c = refl
  emplace_first (d ∷ heap) c = ground (arith, str_beq_refl (address hostname port))

  is_nil-append :
      (heap : List HttpConnection) (c : HttpConnection) → is_nil (heap ++ c ∷ []) ≡ false
  is_nil-append [] c = refl
  is_nil-append (d ∷ heap) c = refl

  pub create-IsPool : (c : HttpClient) → IsPool c → c.free ≡ [] → IsPool (create c).0
  unfolding create new_connection
  create-IsPool c h e = record {
    own_hostname = h.own_hostname;
    own_port = h.own_port;
    own = IsOwn-append c.heap (new_connection c.hostname c.port) h.own (h.own_hostname, h.own_port);
    first =
        ap (λ m. emplace (address c.hostname c.port) (length c.heap) m) h.first
        ∙ ap
            (λ a.
              emplace a (length c.heap)
                (if is_nil c.heap then [] else (address hostname port, 0) ∷ []))
            (ap (λ n. address n c.port) h.own_hostname ∙ ap (address hostname) h.own_port)
        ∙ emplace_first c.heap (new_connection c.hostname c.port)
        ∙ rw (is_nil-append c.heap (new_connection c.hostname c.port)) refl;
    free_id = inl e;
  }
