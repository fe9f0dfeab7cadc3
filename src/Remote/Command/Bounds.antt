-- ===== src/Remote/Command/Bounds.antt =====
-- What `validate_ir_command` accepts.
use local_voice_agent.Prelude.{
  ℕ, suc, ◌≤◌, ◌<◌, ◌≡◌, refl, ap, ◌∙◌, subst, ◌↔◌, inl, inr, some, List, [], ◌∷◌, arith, nat_beq,
  Bool-cases, Option-cases, nat_eq, string_eq, option_eq, length, All,
}
use local_voice_agent.Value.{
  pos, negsuc, Value, null, bool, int, real, str, list, dict, Values, nil, cons, as_natural,
}
use local_voice_agent.Remote.Command.{
  IrCommand, timings, as_values, values_length, validate_ir_command,
}

-- The JSON array of these timings
abbrev pub ints : List ℕ → Values
ints [] = nil
ints (n ∷ ns) = cons (int (pos n)) (ints ns)

as_natural-int : (v : Value) (n : ℕ) → as_natural v ≡ some n → v ≡ int (pos n)
as_natural-int (int (pos m)) n h = ground arith
as_natural-int (int (negsuc m)) n h = absurd (ground arith)
as_natural-int null n h = absurd (ground arith)
as_natural-int (bool b) n h = absurd (ground arith)
as_natural-int (real r) n h = absurd (ground arith)
as_natural-int (str s) n h = absurd (ground arith)
as_natural-int (list vs) n h = absurd (ground arith)
as_natural-int (dict fs) n h = absurd (ground arith)

as_values-list : (v : Value) (vs : Values) → as_values v ≡ some vs → v ≡ list vs
as_values-list (list ws) vs h = ground arith
as_values-list null vs h = absurd (ground arith)
as_values-list (bool b) vs h = absurd (ground arith)
as_values-list (int n) vs h = absurd (ground arith)
as_values-list (real r) vs h = absurd (ground arith)
as_values-list (str s) vs h = absurd (ground arith)
as_values-list (dict fs) vs h = absurd (ground arith)

timings-ints :
    (vs : Values) (ns : List ℕ)
    → timings vs ≡ some ns
    → (vs ≡ ints ns) × All (λ n. 0 < n) ns × (values_length vs ≡ length ns)
unfolding timings
timings-ints nil [] h = (refl, tt, refl)
timings-ints nil (n ∷ ns) h = absurd (ground arith)
timings-ints (cons v vs) ns h = elim (Option-cases (as_natural v)) [
  | inl e ↦ absurd (ground arith)
  | inr (n, e) ↦ elim (Option-cases (timings vs)) [
    | inl t ↦ absurd (ground arith)
    | inr (ms, t) ↦
        let (same, positive, size) = timings-ints vs ms t in
        let whole = as_natural-int v n e in
        elim (Bool-cases (nat_beq n 0)) [
          | inl z ↦ absurd (ground arith)
          | inr z ↦
              let shape : n ∷ ms ≡ ns = ground arith in
              subst
                (λ ns.
                  (cons v vs ≡ ints ns)
                  × All (λ n. 0 < n) ns
                  × (values_length (cons v vs) ≡ length ns))
                shape (rw (whole, same) refl, (ground arith, positive), ground arith)
        ]
  ]
]

ints-timings : (ns : List ℕ) → All (λ n. 0 < n) ns → timings (ints ns) ≡ some ns
unfolding timings
ints-timings [] a = refl
ints-timings (n ∷ ns) a = ground (arith, ints-timings ns a.1)

length-ints : (ns : List ℕ) → values_length (ints ns) ≡ length ns
length-ints [] = refl
length-ints (n ∷ ns) = ap suc (length-ints ns)

-- The bounds that the controller's firmware relies on
pub record IsBounded (c : IrCommand) : Type 0 where
  pub frequency_min : 1 ≤ c.frequency
  pub frequency_max : c.frequency ≤ 1000
  pub raw_min : 1 ≤ length c.raw
  pub raw_max : length c.raw ≤ 4096
  pub positive : All (λ n. 0 < n) c.raw

validate-timings :
    (i f : ℕ) (vs : Values) (c : IrCommand)
    → validate_ir_command (int (pos i)) (int (pos f)) (list vs) ≡ some c
    → (ns : List ℕ) × (timings vs ≡ some ns)
      × (record { id = i; frequency = f; raw = ns } ≡ c)
      × (1 ≤ f)
      × (f ≤ 1000)
      × (1 ≤ values_length vs)
      × (values_length vs ≤ 4096)
unfolding validate_ir_command
validate-timings i f nil c h = absurd (ground arith)
validate-timings i f (cons v vs) c h = elim (Option-cases (timings (cons v vs))) [
  | inl e ↦ absurd (ground arith)
  | inr (ns, e) ↦ (ns, e, ground arith, ground arith, ground arith, ground arith, ground arith)
]

bounded-accepted :
    (i f : ℕ) (ns : List ℕ)
    → IsBounded (record { id = i; frequency = f; raw = ns })
    → validate_ir_command (int (pos i)) (int (pos f)) (list (ints ns))
      ≡ some (record { id = i; frequency = f; raw = ns })
unfolding validate_ir_command
bounded-accepted i f [] k = absurd (omega (arith, k.raw_min))
bounded-accepted i f (n ∷ ns) k =
    let t = ints-timings (n ∷ ns) k.positive in
    let l = length-ints (n ∷ ns) in
    let a = k.frequency_min in let b = k.frequency_max in let d = k.raw_max in ground arith

validate_ir_command-accepted :
    (ir_id frequency raw : Value) (c : IrCommand)
    → validate_ir_command ir_id frequency raw ≡ some c
    → (ir_id ≡ int (pos c.id))
      × (frequency ≡ int (pos c.frequency))
      × (raw ≡ list (ints c.raw))
      × IsBounded c
unfolding validate_ir_command
validate_ir_command-accepted ir_id frequency raw c h = elim (Option-cases (as_natural ir_id)) [
  | inl e ↦ absurd (ground arith)
  | inr (i, e) ↦ elim (Option-cases (as_natural frequency)) [
    | inl d ↦ absurd (ground arith)
    | inr (f, d) ↦ elim (Option-cases (as_values raw)) [
      | inl l ↦ absurd (ground arith)
      | inr (vs, l) ↦
          let a = as_natural-int ir_id i e in
          let b = as_natural-int frequency f d in
          let r = as_values-list raw vs l in
          let (ns, t, same, low, high, some_raw, few) = validate-timings i f vs c (ground arith) in
          let (shape, positive, size) = timings-ints vs ns t in
          subst
            (λ (c : IrCommand).
              (ir_id ≡ int (pos c.id))
              × (frequency ≡ int (pos c.frequency))
              × (raw ≡ list (ints c.raw))
              × IsBounded c)
            same
            (
              a,
              b,
              r ∙ ap list shape,
              record {
                frequency_min = low;
                frequency_max = high;
                raw_min = ground arith;
                raw_max = ground arith;
                positive = positive;
              },
            )
    ]
  ]
]

-- A JSON command is accepted as the command `c` exactly if it is the JSON of `c`, its frequency is
-- from 1 to 1000, and it has from 1 to 4096 timings, all positive.
pub validate_ir_command_iff :
    (ir_id frequency raw : Value) (c : IrCommand)
    → (validate_ir_command ir_id frequency raw ≡ some c) ↔ (
        (ir_id ≡ int (pos c.id))
        × (frequency ≡ int (pos c.frequency))
        × (raw ≡ list (ints c.raw))
        × IsBounded c)
validate_ir_command_iff ir_id frequency raw c = (
  validate_ir_command-accepted ir_id frequency raw c,
  λ (a, b, r, k). rw (a, b, r) (bounded-accepted c.id c.frequency c.raw k),
)
