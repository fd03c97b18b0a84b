-- ===== src/Strings/Parts.antt =====
-- `strings.Split` at a byte and `strings.Trim` with the cutset "{}".
use wslcsession.Base.{
  ℕ, ◌≢◌, ◌≡◌, refl, Bool, ◌||◌, true, false, List, [], ◌∷◌, ◌++◌, arith, Bytes, All, Lacks, ◌==◌,
  if◌then◌else◌,
}

push : ℕ → List Bytes → List Bytes
push c [] = (c ∷ []) ∷ []
push c (p ∷ ps) = (c ∷ p) ∷ ps

unfoldable pub split : Bytes → ℕ → List Bytes
unfolding push
split [] sep = [] ∷ []
split (c ∷ s) sep = let rest = split s sep in if c == sep then [] ∷ rest else push c rest

-- The inverse of `split`, as a specification.
abbrev pub join : List Bytes → ℕ → Bytes
join [] sep = []
join (p ∷ []) sep = p
join (p ∷ q ∷ ps) sep = p ++ sep ∷ join (q ∷ ps) sep

split_at_sep :
    (p rest : Bytes) (sep : ℕ) → Lacks sep p → split (p ++ sep ∷ rest) sep ≡ p ∷ split rest sep
unfolding split
split_at_sep [] rest sep h = ground arith
split_at_sep (c ∷ p) rest sep (hc, hp) = ground (arith, split_at_sep p rest sep hp)

split_last : (p : Bytes) (sep : ℕ) → Lacks sep p → split p sep ≡ p ∷ []
unfolding split
split_last [] sep h = refl
split_last (c ∷ p) sep (hc, hp) = ground (arith, split_last p sep hp)

-- Splitting a join gives the parts back, if there is a part and none holds the separator.
pub split-join :
    (p : Bytes) (ps : List Bytes) (sep : ℕ)
    → Lacks sep p
    → All (Lacks sep) ps
    → split (join (p ∷ ps) sep) sep ≡ p ∷ ps
split-join p [] sep h _ = split_last p sep h
split-join p (q ∷ ps) sep h (hq, hps) =
    rw (split_at_sep p _ sep h) (λ i. p ∷ split-join q ps sep hq hps i)

join-push :
    (c sep : ℕ) (p : Bytes) (ps : List Bytes) → join (push c (p ∷ ps)) sep ≡ c ∷ join (p ∷ ps) sep
unfolding push
join-push c sep p [] = refl
join-push c sep p (q ∷ ps) = refl

split-ne-nil : (s : Bytes) (sep : ℕ) → (p : Bytes) × (ps : List Bytes) × (split s sep ≡ p ∷ ps)
unfolding split
split-ne-nil [] sep = ([], [], refl)
split-ne-nil (c ∷ s) sep =
    let (p, ps, e) = split-ne-nil s sep in
    elim (c == sep)
      as (λ b.
        (q : Bytes) × (qs : List Bytes) × ((if b then [] ∷ split s sep else push c (split s sep))
          ≡ q ∷ qs)) [ true ↦ ([], split s sep, refl) | false ↦ (c ∷ p, ps, rw e) ]

-- Joining the parts of a split gives the text back, for every text.
pub join-split : (s : Bytes) (sep : ℕ) → join (split s sep) sep ≡ s
unfolding split
join-split [] sep = refl
join-split (c ∷ s) sep =
    let (p, ps, e) = split-ne-nil s sep in
    let ih : join (p ∷ ps) sep ≡ s = rw e at (join-split s sep) in
    rw e (ground (arith, ih, join-push c sep p ps))

-- No part holds the separator.
pub split-Lacks : (s : Bytes) (sep : ℕ) → All (Lacks sep) (split s sep)
unfolding split
split-Lacks [] sep = (tt, tt)
split-Lacks (c ∷ s) sep =
    let (p, ps, e) = split-ne-nil s sep in
    let ih : All (Lacks sep) (p ∷ ps) = rw e at (split-Lacks s sep) in rw e (ground (arith, ih))

is_brace : ℕ → Bool
is_brace c = c == b'{' || c == b'}'

trim_left : Bytes → Bytes
unfolding is_brace
trim_left [] = []
trim_left (c ∷ s) = let rest = trim_left s in if is_brace c then rest else c ∷ s

keep_unless_end : ℕ → Bytes → Bytes
unfolding is_brace
keep_unless_end c [] = if is_brace c then [] else c ∷ []
keep_unless_end c (d ∷ s) = c ∷ d ∷ s

trim_right : Bytes → Bytes
unfolding keep_unless_end
trim_right [] = []
trim_right (c ∷ s) = keep_unless_end c (trim_right s)

-- `strings.Trim(s, "{}")`
unfoldable pub trim_braces : Bytes → Bytes
unfolding trim_left trim_right
trim_braces s = trim_right (trim_left s)

abbrev pub NoBrace : ℕ → Type 0
NoBrace c = (c ≢ b'{') × (c ≢ b'}')

trim_right-id : (s : Bytes) → All NoBrace s → trim_right s ≡ s
unfolding trim_right
trim_right-id [] h = refl
trim_right-id (c ∷ []) h = ground arith
trim_right-id (c ∷ d ∷ s) (hc, hs) = rw (trim_right-id (d ∷ s) hs)

trim_left-id : (s : Bytes) → All NoBrace s → trim_left s ≡ s
unfolding trim_left
trim_left-id [] h = refl
trim_left-id (c ∷ s) h = ground arith

-- Text without braces is not changed.
pub trim_braces-id : (s : Bytes) → All NoBrace s → trim_braces s ≡ s
unfolding trim_braces
trim_braces-id s h = rw (trim_left-id s h) (trim_right-id s h)

trim_right-close : (s : Bytes) → All NoBrace s → trim_right (s ++ b'}' ∷ []) ≡ s
unfolding trim_right
trim_right-close [] h = refl
trim_right-close (c ∷ s) (hc, hs) = rw (trim_right-close s hs) (keep s)
  where
    keep : (t : Bytes) → keep_unless_end c t ≡ c ∷ t
    keep [] = ground arith
    keep (d ∷ t) = refl

trim_left-append : (s t : Bytes) → All NoBrace s → s ≢ [] → trim_left (s ++ t) ≡ s ++ t
unfolding trim_left
trim_left-append [] t h ne = absurd (ne refl)
trim_left-append (c ∷ s) t h ne = ground arith

-- One pair of braces is taken off.
pub trim_braces-braced :
    (s : Bytes) → All NoBrace s → s ≢ [] → trim_braces (b'{' ∷ (s ++ b'}' ∷ [])) ≡ s
unfolding trim_braces
trim_braces-braced s h ne = rw (trim_left-append s _ h ne) (trim_right-close s h)
