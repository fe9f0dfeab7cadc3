-- ===== src/Wifi/Scan/Sorted.antt =====
-- The order of the list.
use local_voice_agent.Prelude.{
  ◌≡◌, refl, ap, ◌∙◌, inl, inr, Bool, true, false, ◌||◌, List, [], ◌∷◌, arith, eq_iff, if_ind,
  Bool-cases, ◌==◌, nat_eq, string_eq, option_eq, any, All,
}
use local_voice_agent.Wifi.Scan.{Network, precedes, insert, sort}
use local_voice_agent.Wifi.Scan.Best.{has_ssid, IsDistinct, IsOrdered}

any-insert :
    (p : Network → Bool) (n : Network) (ns : List Network) → any p (insert n ns) ≡ (p n || any p ns)
unfolding insert
any-insert p n [] = refl
any-insert p n (m ∷ ms) = ground (arith, any-insert p n ms)

pub any-sort : (p : Network → Bool) (ns : List Network) → any p (sort ns) ≡ any p ns
unfolding sort
any-sort p [] = refl
any-sort p (n ∷ ns) = any-insert p n (sort ns) ∙ ap (λ b. p n || b) (any-sort p ns)

All-insert :
    (P : Network → Type 0) (n : Network) (ns : List Network) → P n → All P ns → All P (insert n ns)
unfolding insert
All-insert P n [] pn a = (pn, tt)
All-insert P n (m ∷ ms) pn (pm, a) =
    if_ind (All P) (precedes n m) (pn, (pm, a)) (pm, All-insert P n ms pn a)

pub All-sort : (P : Network → Type 0) (ns : List Network) → All P ns → All P (sort ns)
unfolding sort
All-sort P [] a = tt
All-sort P (n ∷ ns) (pn, a) = All-insert P n (sort ns) pn (All-sort P ns a)

insert-IsDistinct :
    (n : Network) (ns : List Network)
    → has_ssid n.ssid ns ≡ false
    → IsDistinct ns
    → IsDistinct (insert n ns)
unfolding insert
insert-IsDistinct n [] h d = (refl, tt)
insert-IsDistinct n (m ∷ ms) h (k, d) = elim (Bool-cases (precedes n m)) [
  | inl e ↦ rw (e, insert) (h, (k, d))
  | inr e ↦
      rw (e, insert)
        (
          any-insert (λ x. x.ssid == m.ssid) n ms
              ∙ ground (arith, eq_iff n.ssid m.ssid, eq_iff m.ssid n.ssid),
          insert-IsDistinct n ms (ground arith) d,
        )
]

pub sort-IsDistinct : (ns : List Network) → IsDistinct ns → IsDistinct (sort ns)
unfolding sort
sort-IsDistinct [] d = tt
sort-IsDistinct (n ∷ ns) (h, d) =
    insert-IsDistinct n (sort ns) (any-sort (λ m. m.ssid == n.ssid) ns ∙ h) (sort-IsDistinct ns d)

precedes_total : (n m : Network) → precedes n m ≡ false → precedes m n ≡ true
precedes_total n m h = ground arith

precedes_trans : (a b c : Network) → precedes a b ≡ true → precedes b c ≡ true → precedes a c ≡ true
precedes_trans a b c h k = ground arith

All-precedes :
    (a b : Network) (ns : List Network)
    → precedes a b ≡ true
    → All (λ m. precedes b m ≡ true) ns
    → All (λ m. precedes a m ≡ true) ns
All-precedes a b [] h t = tt
All-precedes a b (c ∷ ns) h (k, t) = (precedes_trans a b c h k, All-precedes a b ns h t)

insert-IsOrdered : (n : Network) (ns : List Network) → IsOrdered ns → IsOrdered (insert n ns)
unfolding insert
insert-IsOrdered n [] o = (tt, tt)
insert-IsOrdered n (m ∷ ms) (a, o) = elim (Bool-cases (precedes n m)) [
  | inl e ↦ rw (e, insert) ((e, All-precedes n m ms e a), (a, o))
  | inr e ↦
      rw (e, insert)
        (
          All-insert (λ x. precedes m x ≡ true) n ms (precedes_total n m e) a,
          insert-IsOrdered n ms o,
        )
]

pub sort-IsOrdered : (ns : List Network) → IsOrdered (sort ns)
unfolding sort
sort-IsOrdered [] = tt
sort-IsOrdered (n ∷ ns) = insert-IsOrdered n (sort ns) (sort-IsOrdered ns)
