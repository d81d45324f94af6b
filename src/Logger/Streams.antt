-- ===== src/Logger/Streams.antt =====
-- What the stream of a thread holds.
use ch_cpp_utils.Base.{
  ℕ, some, List, [], ◌∷◌, ◌++◌, Str, nat_eq, nat_beq, nat_beq_iff, lookup, emplace, assign,
  lookup-emplace, lookup-assign, if◌then◌else◌, ◌≡◌, inl, inr, arith, Option-cases, Assoc,
}
use ch_cpp_utils.Logger.{Call, value, manipulator, line_start, get_thread_entry, clear}
use ch_cpp_utils.Logger.History.{pending, begun}

-- The stream that getThreadEntry finds or makes.
pub entry-begun :
    (t : ℕ) (ctime : Str) (h : List Call) (m : Assoc ℕ Str)
    → lookup t m ≡ pending t h
    → (get_thread_entry t ctime m).1 ≡ begun t ctime h
unfolding get_thread_entry
entry-begun t ctime h m e = elim (Option-cases (lookup t m)) [
  | inl n ↦ ground (arith)
  | inr (text, n) ↦ ground (arith)
]

lookup-entry :
    (t u : ℕ) (ctime : Str) (h : List Call) (m : Assoc ℕ Str)
    → ((v : ℕ) → lookup v m ≡ pending v h)
    → lookup u (get_thread_entry t ctime m).0
      ≡ (if nat_beq t u then some (begun t ctime h) else pending u h)
unfolding get_thread_entry
lookup-entry t u ctime h m e = elim (Option-cases (lookup t m)) [
  | inl n ↦ ground (
    arith,
    nat_beq_iff t u,
    e t,
    e u,
    lookup-emplace t u [] m,
    lookup-emplace t t [] m,
    lookup-assign t u (line_start ctime) (emplace t [] m),
  )
  | inr (text, n) ↦ ground (arith, nat_beq_iff t u, e t, e u)
]

-- The streams behind a write of `t`.
lookup-written :
    (t u : ℕ) (ctime text : Str) (h : List Call) (m : Assoc ℕ Str)
    → ((v : ℕ) → lookup v m ≡ pending v h)
    → lookup u (assign t text (get_thread_entry t ctime m).0)
      ≡ (if nat_beq t u then some text else pending u h)
lookup-written t u ctime text h m e = ground (
  arith,
  nat_beq_iff t u,
  nat_beq_iff t t,
  lookup-assign t u text (get_thread_entry t ctime m).0,
  lookup-entry t u ctime h m e,
  lookup-entry t t ctime h m e,
)

pub value_stream :
    (t u : ℕ) (ctime bytes : Str) (h : List Call) (m : Assoc ℕ Str)
    → ((v : ℕ) → lookup v m ≡ pending v h)
    → lookup u (assign t ((get_thread_entry t ctime m).1 ++ bytes) (get_thread_entry t ctime m).0)
      ≡ pending u (value t ctime bytes ∷ h)
unfolding pending
value_stream t u ctime bytes h m e = elim (Option-cases (pending t h)) [
  | inl n ↦ ground (
    arith,
    nat_beq_iff t u,
    lookup-written t u ctime ((get_thread_entry t ctime m).1 ++ bytes) h m e,
    entry-begun t ctime h m (e t),
  )
  | inr (x, n) ↦ ground (
    arith,
    nat_beq_iff t u,
    lookup-written t u ctime ((get_thread_entry t ctime m).1 ++ bytes) h m e,
    entry-begun t ctime h m (e t),
  )
]

pub line_stream :
    (t u : ℕ) (ctime bytes next : Str) (h : List Call) (m : Assoc ℕ Str)
    → ((v : ℕ) → lookup v m ≡ pending v h)
    → lookup u (
        clear t next
          (assign t ((get_thread_entry t ctime m).1 ++ bytes) (get_thread_entry t ctime m).0))
      ≡ pending u (manipulator t ctime bytes next ∷ h)
unfolding pending
line_stream t u ctime bytes next h m e =
    let text = (get_thread_entry t ctime m).1 ++ bytes in
    let entries = (get_thread_entry t ctime m).0 in
    ground (
      arith,
      nat_beq_iff t u,
      nat_beq_iff t t,
      lookup-assign t u (line_start next) (assign t text entries),
      lookup-written t u ctime text h m e,
      lookup-written t t ctime text h m e,
    )
