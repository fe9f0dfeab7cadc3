-- ===== src/Wifi/Scan/Best.antt =====
-- The best entry of each name.
use local_voice_agent.Prelude.{
  ◌≤◌, String, ◌≡◌, refl, subst, inl, inr, Bool, true, false, not, ◌&&◌, ◌||◌, Option, none, some,
  List, [], ◌∷◌, arith, eq_iff, ltb, if_ind, Bool-cases, Option-cases, ◌==◌, nat_eq, string_eq,
  option_eq, beq_refl, length, any, All, is_text, strip, split_colons_at_most,
}
use local_voice_agent.Value.{ℤ, pos, negsuc}
use local_voice_agent.Wifi.Host.{Host}
use local_voice_agent.Wifi.Scan.{
  Network, is_ssid, clamp, signal_of, network_of, part, parse_line, replaces, keep_best, keep_entry,
  collect_best, precedes,
}

abbrev pub IsEntry : Network → Type 0
IsEntry n = (is_ssid n.ssid ≡ true) × (n.signal ≤ 100)

abbrev pub has_ssid : String → List Network → Bool
has_ssid name ns = any (λ n. n.ssid == name) ns

-- No name stands twice.
abbrev pub IsDistinct : List Network → Type 0
IsDistinct [] = Unit
IsDistinct (n ∷ ns) = (has_ssid n.ssid ns ≡ false) × IsDistinct ns

-- The active networks first, then by falling signal
abbrev pub IsOrdered : List Network → Type 0
IsOrdered [] = Unit
IsOrdered (n ∷ ns) = All (λ m. precedes n m ≡ true) ns × IsOrdered ns

-- Some network stands for the entry: it has its name, and the entry is not better.
abbrev pub covers : Network → List Network → Bool
covers e ns = any (λ n. n.ssid == e.ssid && not (replaces e n)) ns

signal_of-le : (host : Host) (text : String) → signal_of host text ≤ 100
signal_of-le host text = elim (Bool-cases (is_text text)) [
  | inr t ↦ rw t (omega arith)
  | inl t ↦ elim (Option-cases (host.to_int text)) [
    | inl e ↦ rw (t, e) (omega arith)
    | inr (n, e) ↦ rw (t, e) (go n)
  ]
]
  where
    go : (n : ℤ) → clamp n ≤ 100
    go (pos n) = omega arith
    go (negsuc n) = omega arith

parse_line-IsEntry :
    (host : Host) (line : String) (e : Network) → parse_line host line ≡ some e → IsEntry e
unfolding parse_line
parse_line-IsEntry host line e h =
    let parts = split_colons_at_most 3 line in
    let n = network_of host parts in
    elim (Bool-cases (ltb (length parts) 2)) [
      | inl l ↦ absurd (ground arith)
      | inr l ↦ elim (Bool-cases (is_ssid n.ssid)) [
        | inr s ↦ absurd (ground arith)
        | inl s ↦
            let same : n ≡ e = ground arith in
            subst IsEntry same (s, signal_of-le host (strip (part 2 parts)))
      ]
    ]

keep_best-IsEntry :
    (n : Network) (ns : List Network) → IsEntry n → All IsEntry ns → All IsEntry (keep_best n ns)
unfolding keep_best
keep_best-IsEntry n [] i a = (i, tt)
keep_best-IsEntry n (m ∷ ms) i (j, a) =
    if_ind (All IsEntry) (m.ssid == n.ssid) (if_ind (All IsEntry) (replaces n m) (i, a) (j, a))
      (j, keep_best-IsEntry n ms i a)

has-keep_best :
    (name : String) (n : Network) (ns : List Network)
    → has_ssid name (keep_best n ns) ≡ (n.ssid == name || has_ssid name ns)
unfolding keep_best
has-keep_best name n [] = ground arith
has-keep_best name n (m ∷ ms) = ground (arith, eq_iff m.ssid n.ssid, has-keep_best name n ms)

keep_best-IsDistinct :
    (n : Network) (ns : List Network) → IsDistinct ns → IsDistinct (keep_best n ns)
unfolding keep_best
keep_best-IsDistinct n [] d = (refl, tt)
keep_best-IsDistinct n (m ∷ ms) (h, d) = elim (Bool-cases (m.ssid == n.ssid)) [
  | inl e ↦
      rw (e, keep_best)
        (if_ind IsDistinct (replaces n m) (rw ((eq_iff m.ssid n.ssid).0 e) at h, d) (h, d))
  | inr e ↦
      rw (e, keep_best)
        (
          rw (has-keep_best m.ssid n ms)
              (ground (arith, eq_iff n.ssid m.ssid, eq_iff m.ssid n.ssid)),
          keep_best-IsDistinct n ms d,
        )
]

-- The entry itself is covered, and what was covered stays so.
replaces_trans :
    (d m e : Network) → replaces d m ≡ true → replaces e m ≡ false → replaces e d ≡ false
replaces_trans d m e r c = ground arith

replaces_irrefl : (n : Network) → replaces n n ≡ false
replaces_irrefl n = ground arith

covers_self : (n : Network) (ns : List Network) → covers n (keep_best n ns) ≡ true
unfolding keep_best
covers_self n [] = rw (beq_refl n.ssid, replaces_irrefl n) refl
covers_self n (m ∷ ms) = elim (Bool-cases (m.ssid == n.ssid)) [
  | inl e ↦ elim (Bool-cases (replaces n m)) [
    | inl r ↦ rw (e, keep_best, r, beq_refl n.ssid, replaces_irrefl n) refl
    | inr r ↦ rw (e, keep_best, r, e, r) refl
  ]
  | inr e ↦ rw (e, keep_best, covers_self n ms) (ground arith)
]

covers-keep_best :
    (e d : Network) (ns : List Network) → covers e ns ≡ true → covers e (keep_best d ns) ≡ true
unfolding keep_best
covers-keep_best e d [] h = absurd (ground arith)
covers-keep_best e d (m ∷ ms) h = elim (Bool-cases (m.ssid == d.ssid)) [
  | inr s ↦ rw (s, keep_best) (ground (arith, covers-keep_best e d ms))
  | inl s ↦ elim (Bool-cases (replaces d m)) [
    | inr r ↦ rw (s, keep_best, r) h
    | inl r ↦
        rw (s, keep_best, r)
          (ground (
            arith,
            replaces_trans d m e r,
            eq_iff m.ssid d.ssid,
            eq_iff m.ssid e.ssid,
            eq_iff d.ssid e.ssid,
          ))
  ]
]

keep_entry-IsEntry :
    (host : Host) (line : String) (ns : List Network)
    → All IsEntry ns
    → All IsEntry (keep_entry (parse_line host line) ns)
keep_entry-IsEntry host line ns a = elim (Option-cases (parse_line host line)) [
  | inl e ↦ rw e a
  | inr (n, e) ↦ rw e (keep_best-IsEntry n ns (parse_line-IsEntry host line n e) a)
]

keep_entry-IsDistinct :
    (o : Option Network) (ns : List Network) → IsDistinct ns → IsDistinct (keep_entry o ns)
keep_entry-IsDistinct none ns d = d
keep_entry-IsDistinct (some n) ns d = keep_best-IsDistinct n ns d

covers-keep_entry :
    (e : Network) (o : Option Network) (ns : List Network)
    → covers e ns ≡ true
    → covers e (keep_entry o ns) ≡ true
covers-keep_entry e none ns h = h
covers-keep_entry e (some n) ns h = covers-keep_best e n ns h

module _ (host : Host) where
  pub collect_best-IsEntry :
      (lines : List String) (ns : List Network)
      → All IsEntry ns
      → All IsEntry (collect_best host lines ns)
  unfolding collect_best
  collect_best-IsEntry [] ns a = a
  collect_best-IsEntry (line ∷ lines) ns a =
      collect_best-IsEntry lines _ (keep_entry-IsEntry host line ns a)

  pub collect_best-IsDistinct :
      (lines : List String) (ns : List Network)
      → IsDistinct ns
      → IsDistinct (collect_best host lines ns)
  unfolding collect_best
  collect_best-IsDistinct [] ns d = d
  collect_best-IsDistinct (line ∷ lines) ns d =
      collect_best-IsDistinct lines _ (keep_entry-IsDistinct (parse_line host line) ns d)

  covers-collect_best :
      (e : Network) (lines : List String) (ns : List Network)
      → covers e ns ≡ true
      → covers e (collect_best host lines ns) ≡ true
  unfolding collect_best
  covers-collect_best e [] ns h = h
  covers-collect_best e (line ∷ lines) ns h =
      covers-collect_best e lines _ (covers-keep_entry e (parse_line host line) ns h)

  -- The entry of a line is covered by these networks, if the line has one.
  abbrev pub IsCovered : List Network → String → Type 0
  IsCovered ns line = (e : Network) → parse_line host line ≡ some e → covers e ns ≡ true

  pub collect_best-IsCovered :
      (lines : List String) (ns : List Network) → All (IsCovered (collect_best host lines ns)) lines
  unfolding collect_best
  collect_best-IsCovered [] ns = tt
  collect_best-IsCovered (line ∷ lines) ns = (
    (λ e p.
        covers-collect_best e lines (keep_entry (parse_line host line) ns)
          (rw p (covers_self e ns))),
    collect_best-IsCovered lines (keep_entry (parse_line host line) ns),
  )
