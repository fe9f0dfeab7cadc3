-- ===== src/Wifi/Scan/Laws.antt =====
-- What a scan lists.
use local_voice_agent.Prelude.{
  ℕ, zero, suc, ◌≤◌, ◌<◌, String, ◌≡◌, refl, ap, ◌∙◌, Bool, true, false, not, ◌&&◌, List, [], ◌∷◌,
  arith, ◌==◌, nat_eq, string_eq, option_eq, length, take, length-take-le, any, All, splitlines,
}
use local_voice_agent.Wifi.Host.{Host}
use local_voice_agent.Wifi.Scan.{
  Network, replaces, collect_best, precedes, sort, max_networks, parse_scan,
}
use local_voice_agent.Wifi.Scan.Best.{
  IsEntry, IsDistinct, IsOrdered, IsCovered, collect_best-IsEntry, collect_best-IsDistinct,
  collect_best-IsCovered,
}
use local_voice_agent.Wifi.Scan.Sorted.{any-sort, All-sort, sort-IsDistinct, sort-IsOrdered}

All-take : (P : Network → Type 0) (k : ℕ) (ns : List Network) → All P ns → All P (take k ns)
All-take P zero ns a = tt
All-take P (suc k) [] a = tt
All-take P (suc k) (n ∷ ns) (pn, a) = (pn, All-take P k ns a)

any-take-false :
    (p : Network → Bool) (k : ℕ) (ns : List Network) → any p ns ≡ false → any p (take k ns) ≡ false
any-take-false p zero ns h = refl
any-take-false p (suc k) [] h = refl
any-take-false p (suc k) (n ∷ ns) h = ground (arith, any-take-false p k ns)

take-IsDistinct : (k : ℕ) (ns : List Network) → IsDistinct ns → IsDistinct (take k ns)
take-IsDistinct zero ns d = tt
take-IsDistinct (suc k) [] d = tt
take-IsDistinct (suc k) (n ∷ ns) (h, d) =
    (any-take-false (λ m. m.ssid == n.ssid) k ns h, take-IsDistinct k ns d)

take-IsOrdered : (k : ℕ) (ns : List Network) → IsOrdered ns → IsOrdered (take k ns)
take-IsOrdered zero ns o = tt
take-IsOrdered (suc k) [] o = tt
take-IsOrdered (suc k) (n ∷ ns) (a, o) =
    (All-take (λ m. precedes n m ≡ true) k ns a, take-IsOrdered k ns o)

take-all : (k : ℕ) (ns : List Network) → length (take k ns) < k → take k ns ≡ ns
take-all zero ns h = absurd (omega arith)
take-all (suc k) [] h = refl
take-all (suc k) (n ∷ ns) h = ap (λ ms. n ∷ ms) (take-all k ns (omega arith))

All_mono :
    {P Q : String → Type 0} (lines : List String)
    → ((s : String) → P s → Q s)
    → All P lines
    → All Q lines
All_mono [] f a = tt
All_mono (s ∷ lines) f (p, a) = (f s p, All_mono lines f a)

-- A scan lists at most twenty networks with distinct names of 1 to 64 characters and signals of at
-- most 100, the active ones first and then by falling signal; and where it lists fewer than twenty,
-- every line with a name is covered: the network of that name in the list is not worse than the line.
pub parse_scan_listed :
    (host : Host) (output : String)
    → let networks = parse_scan host output in
      (length networks ≤ 20)
      × All IsEntry networks
      × IsDistinct networks
      × IsOrdered networks
      × (length networks < 20 → All (IsCovered host networks) (splitlines output))
unfolding parse_scan
parse_scan_listed host output =
    let lines = splitlines output in
    let best = collect_best host lines [] in
    (
      length-take-le max_networks (sort best),
      All-take IsEntry max_networks (sort best)
          (All-sort IsEntry best (collect_best-IsEntry host lines [] tt)),
      take-IsDistinct max_networks (sort best)
          (sort-IsDistinct best (collect_best-IsDistinct host lines [] tt)),
      take-IsOrdered max_networks (sort best) (sort-IsOrdered best),
      (λ few.
          All_mono lines
            (λ s c e p.
              rw (take-all max_networks (sort best) few)
                (any-sort (λ n. n.ssid == e.ssid && not (replaces e n)) best ∙ c e p))
            (collect_best-IsCovered host lines [])),
    )
