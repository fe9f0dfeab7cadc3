-- ===== src/Agent/Buffers/Assembly.antt =====
-- What the buffers hold after a stream.
use local_voice_agent.Prelude.{
  ℕ, ◌+◌, ◌≤◌, ◌<◌, ◌≡◌, refl, ◌∙◌, inl, inr, Bool, true, false, List, [], ◌∷◌, arith, ltb, nat_beq,
  if◌then◌else◌, Bool-cases, ◌==◌, nat_eq, string_eq, option_eq,
}
use local_voice_agent.Agent.Buffers.{
  CallDelta, Chunk, ToolCallBuffer, Buffers, empty_buffer, extend, add_delta, add_deltas,
  call_deltas, collect,
}

-- The buffer of an index, empty if there is none
unfoldable pub buffer_of : ℕ → Buffers → ToolCallBuffer
buffer_of i [] = empty_buffer
buffer_of i ((j, b) ∷ buffers) = let rest = buffer_of i buffers in if i == j then b else rest

-- What the parts of one index make, one after the other
unfoldable pub joined : ℕ → List CallDelta → ToolCallBuffer → ToolCallBuffer
joined i [] b = b
joined i (d ∷ ds) b = if d.index == i then joined i ds (extend d b) else joined i ds b

-- The indices rise.
abbrev pub IsAbove : ℕ → Buffers → Type 0
IsAbove n [] = Unit
IsAbove n ((i, b) ∷ buffers) = (n ≤ i) × IsAbove (i + 1) buffers

IsAbove-add_delta :
    (n : ℕ) (d : CallDelta) (buffers : Buffers)
    → n ≤ d.index
    → IsAbove n buffers
    → IsAbove n (add_delta d buffers)
unfolding add_delta
IsAbove-add_delta n d [] h a = (h, tt)
IsAbove-add_delta n d ((i, b) ∷ buffers) h a = elim (Bool-cases (nat_beq d.index i)) [
  | inl e ↦ rw e a
  | inr e ↦ elim (Bool-cases (ltb d.index i)) [
    | inl l ↦ rw (e, l) (h, (ground arith, a.1))
    | inr l ↦ rw (e, l) (a.0, IsAbove-add_delta (i + 1) d buffers (ground arith) a.1)
  ]
]

buffer_of-below :
    (n i : ℕ) (buffers : Buffers) → i < n → IsAbove n buffers → buffer_of i buffers ≡ empty_buffer
unfolding buffer_of
buffer_of-below n i [] h a = refl
buffer_of-below n i ((j, b) ∷ buffers) h a = ground (arith, buffer_of-below (j + 1) i buffers)

buffer_of-add_delta :
    (n i : ℕ) (d : CallDelta) (buffers : Buffers)
    → IsAbove n buffers
    → buffer_of i (add_delta d buffers)
      ≡ (if d.index == i then extend d (buffer_of i buffers) else buffer_of i buffers)
unfolding add_delta buffer_of
buffer_of-add_delta n i d [] a = ground arith
buffer_of-add_delta n i d ((j, b) ∷ buffers) a =
    let rest = buffer_of-add_delta (j + 1) i d buffers a.1 in
    let below : i < j → buffer_of i buffers ≡ empty_buffer =
      λ h. buffer_of-below (j + 1) i buffers (ground arith) a.1 in
    ground arith

add_deltas_lem :
    (i : ℕ) (ds : List CallDelta) (buffers : Buffers)
    → IsAbove 0 buffers
    → (buffer_of i (add_deltas ds buffers) ≡ joined i ds (buffer_of i buffers))
      × IsAbove 0 (add_deltas ds buffers)
unfolding add_deltas joined
add_deltas_lem i [] buffers a = (refl, a)
add_deltas_lem i (d ∷ ds) buffers a =
    let (e, b) =
      add_deltas_lem i ds (add_delta d buffers) (IsAbove-add_delta 0 d buffers (omega arith) a) in
    (e ∙ rw (buffer_of-add_delta 0 i d buffers a) (if_joined (d.index == i)), b)
  where
    if_joined :
        (t : Bool)
        → joined i ds (if t then extend d (buffer_of i buffers) else buffer_of i buffers) ≡ (
            if t
            then joined i ds (extend d (buffer_of i buffers))
            else joined i ds (buffer_of i buffers))
    if_joined true = refl
    if_joined false = refl

-- After a stream every call is what its parts make in the order in which they came, however the
-- parts of different calls were interleaved, and the calls stand in the order of their indices.
pub collect_lem :
    (i : ℕ) (chunks : List Chunk)
    → (buffer_of i (collect chunks) ≡ joined i (call_deltas chunks) empty_buffer)
      × IsAbove 0 (collect chunks)
unfolding collect buffer_of
collect_lem i chunks = add_deltas_lem i (call_deltas chunks) [] tt
