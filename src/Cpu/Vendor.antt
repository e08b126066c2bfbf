-- ===== src/Cpu/Vendor.antt =====
-- The names of the vendor and of the hypervisor, from the registers that hold it back to the text.
use orin_os.Prelude.{
  ℕ, zero, suc, ◌<◌, ◌≡◌, refl, sym, ap, ap₂, ◌∙◌, true, List, [], ◌∷◌, ◌++◌, Option, none, some,
  arith, length, length-take, length-drop, take, drop, take-append, replicate, lt→ltb,
}
use orin_os.Prelude.Text.{le_value, le_bytes, copy_at, chars_from}
use orin_os.Prelude.Loops.{Gives}
use orin_os.Cpu.Detected.{Is32, leaf_up_to-Is32, tsc_rate-IsRate}
use orin_os.Cpu.{
  Cpuid, has, leaf_up_to, name_of, hypervisor_name, features, detect, cstr, text_up_to, non_ascii,
  nul_position,
}

-- Bytes of printable or control ASCII, none of them NUL.
abbrev pub AreAscii : List ℕ → Type 0
AreAscii [] = Unit
AreAscii (b ∷ bs) = ((0 < b) × (b < 128)) × AreAscii bs

le_bytes-le_value : (bs : List ℕ) → AreAscii bs → le_bytes (length bs) (le_value bs) ≡ bs
unfolding le_bytes le_value
le_bytes-le_value [] h = refl
le_bytes-le_value (b ∷ bs) ((pos, lt), h) =
    ap₂ (λ (x : ℕ) (xs : List ℕ). x ∷ xs) (omega arith)
      (ap (le_bytes (length bs)) (omega arith) ∙ le_bytes-le_value bs h)

chars_from-ascii : (bs : List ℕ) → AreAscii bs → (cs : List (List ℕ)) × (chars_from bs ≡ some cs)
unfolding chars_from
chars_from-ascii [] h = ([], refl)
chars_from-ascii (b ∷ bs) ((pos, lt), h) =
    let (cs, e) = chars_from-ascii bs h in ((b ∷ []) ∷ cs, rw (lt→ltb b 128 lt, e, chars_from) refl)

nul_position-ascii : (bs : List ℕ) → AreAscii bs → nul_position (bs ++ 0 ∷ []) ≡ some (length bs)
unfolding nul_position
nul_position-ascii [] h = refl
nul_position-ascii (zero ∷ bs) ((pos, lt), h) = absurd (omega arith)
nul_position-ascii (suc n ∷ bs) (r, h) = rw (nul_position-ascii bs h) refl

cstr-ascii : (bs : List ℕ) → AreAscii bs → cstr (bs ++ 0 ∷ []) ≡ bs
unfolding cstr text_up_to
cstr-ascii bs h =
    let (cs, e) = chars_from-ascii bs h in
    ap
      (λ (o : Option ℕ).
        text_up_to (bs ++ 0 ∷ []) (elim o [ none ↦ length (bs ++ 0 ∷ []) | some i ↦ i ]))
      (nul_position-ascii bs h)
    ∙ ap (λ (t : List ℕ). elim (chars_from t) [ none ↦ non_ascii | some cs ↦ t ])
        (take-append bs (0 ∷ []))
    ∙ rw e refl

four :
    (xs : List ℕ)
    → length xs ≡ 4
    → (a : ℕ) × (b : ℕ) × (c : ℕ) × (d : ℕ) × (xs ≡ a ∷ b ∷ c ∷ d ∷ [])
four [] e = absurd (omega (arith, e))
four (a ∷ []) e = absurd (omega (arith, e))
four (a ∷ b ∷ []) e = absurd (omega (arith, e))
four (a ∷ b ∷ c ∷ []) e = absurd (omega (arith, e))
four (a ∷ b ∷ c ∷ d ∷ []) e = (a, b, c, d, refl)
four (a ∷ b ∷ c ∷ d ∷ x ∷ xs) e = absurd (omega (arith, e))

copies :
    (x y z : List ℕ)
    → length x ≡ 4
    → length y ≡ 4
    → length z ≡ 4
    → copy_at (copy_at (copy_at (replicate 13 0) 0 x) 4 y) 8 z ≡ (x ++ (y ++ z)) ++ 0 ∷ []
unfolding copy_at replicate
copies x y z p q r =
    let (_, _, _, _, ex) = four x p in
    let (_, _, _, _, ey) = four y q in let (_, _, _, _, ez) = four z r in rw (ex, ey, ez) refl

register_bytes : (xs : List ℕ) → length xs ≡ 4 → AreAscii xs → le_bytes 4 (le_value xs) ≡ xs
register_bytes xs e h = ap (λ (n : ℕ). le_bytes n (le_value xs)) (sym e) ∙ le_bytes-le_value xs h

take-AreAscii : (n : ℕ) (xs : List ℕ) → AreAscii xs → AreAscii (take n xs)
take-AreAscii zero xs h = tt
take-AreAscii (suc n) [] h = tt
take-AreAscii (suc n) (x ∷ xs) (b, h) = (b, take-AreAscii n xs h)

drop-AreAscii : (n : ℕ) (xs : List ℕ) → AreAscii xs → AreAscii (drop n xs)
drop-AreAscii zero xs h = h
drop-AreAscii (suc n) [] h = tt
drop-AreAscii (suc n) (x ∷ xs) (b, h) = drop-AreAscii n xs h

take-drop : (n : ℕ) (xs : List ℕ) → take n xs ++ drop n xs ≡ xs
take-drop zero xs = refl
take-drop (suc n) [] = refl
take-drop (suc n) (x ∷ xs) = ap (λ (t : List ℕ). x ∷ t) (take-drop n xs)

drop-drop : (xs : List ℕ) → drop 4 (drop 4 xs) ≡ drop 8 xs
drop-drop [] = refl
drop-drop (a ∷ []) = refl
drop-drop (a ∷ b ∷ []) = refl
drop-drop (a ∷ b ∷ c ∷ []) = refl
drop-drop (a ∷ b ∷ c ∷ d ∷ xs) = refl

-- Twelve bytes of ASCII that three registers hold.
pub record Spells (text : List ℕ) (a b c : ℕ) : Type 0 where
  pub twelve : length text ≡ 12
  pub ascii : AreAscii text
  pub first : a ≡ le_value (take 4 text)
  pub second : b ≡ le_value (take 4 (drop 4 text))
  pub third : c ≡ le_value (drop 8 text)

cstr-name_of : (text : List ℕ) (a b c : ℕ) → Spells text a b c → cstr (name_of a b c) ≡ text
unfolding name_of
cstr-name_of text a b c s =
    let x = take 4 text in
    let y = take 4 (drop 4 text) in
    let z = drop 8 text in
    let lx : length x ≡ 4 = length-take 4 text (omega (arith, s.twelve)) in
    let ly : length y ≡ 4 =
      length-take 4 (drop 4 text) (omega (arith, s.twelve, length-drop 4 text)) in
    let lz : length z ≡ 4 = omega (arith, s.twelve, length-drop 8 text) in
    let whole : x ++ (y ++ z) ≡ text =
      ap (λ (t : List ℕ). x ++ (y ++ t)) (sym (drop-drop text))
      ∙ ap (λ (t : List ℕ). x ++ t) (take-drop 4 (drop 4 text))
      ∙ take-drop 4 text in
    rw
      (
        s.first,
        s.second,
        s.third,
        register_bytes x lx (take-AreAscii 4 text s.ascii),
        register_bytes y ly (take-AreAscii 4 (drop 4 text) (drop-AreAscii 4 text s.ascii)),
        register_bytes z lz (drop-AreAscii 8 text s.ascii),
        copies x y z lx ly lz,
        whole,
      )
      (cstr-ascii text s.ascii)

-- On a processor with 32-bit registers, under a hypervisor, whose leaf 0 holds a vendor's name of twelve
-- ASCII bytes in ebx, edx and ecx, and whose leaf 0x40000000 holds a hypervisor's in ebx, ecx and edx,
-- detect returns, and cstr reads both names back.
pub detect_names :
    (raw : Cpuid) (vendor hypervisor : List ℕ)
    → ((l : ℕ) → Is32 (raw l 0))
    → Spells vendor (raw 0 0).ebx (raw 0 0).edx (raw 0 0).ecx
    → has (leaf_up_to raw (raw 0 0).eax 1).ecx 31 ≡ true
    → Spells hypervisor (raw 0x40000000 0).ebx (raw 0x40000000 0).ecx (raw 0x40000000 0).edx
    → Gives (λ f. (cstr f.vendor ≡ vendor) × (cstr f.hypervisor_vendor ≡ hypervisor)) (detect raw)
unfolding detect features hypervisor_name
detect_names raw vendor hypervisor h v under hv =
    let top = (raw 0 0).eax in
    let (khz, q, _) = tsc_rate-IsRate (leaf_up_to raw top 0x15) (leaf_up_to-Is32 raw top 0x15 h) in
    (
      features raw khz,
      rw q refl,
      (
        cstr-name_of vendor (raw 0 0).ebx (raw 0 0).edx (raw 0 0).ecx v,
        rw under (
            cstr-name_of hypervisor (raw 0x40000000 0).ebx (raw 0x40000000 0).ecx
              (raw 0x40000000 0).edx hv),
      ),
    )
