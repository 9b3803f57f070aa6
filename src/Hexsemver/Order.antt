-- ===== src/Hexsemver/Order.antt =====
-- hexsemver/hexsemver.go: `Compare` is a total order on versions.
use mochi_beam.Base.{◌≡◌, ◌↔◌, refl, ap, sym, subst, [], ◌∷◌, arith}
use mochi_beam.Base.Int.{ℤ, pos, negsuc}
use mochi_beam.Text.Chars.{Text}
use mochi_beam.Text.Order.{
  Sign, below, same, above, flip, compare_text-flip, compare_text→eq, compare_text_trans,
}
use mochi_beam.Hexsemver.Version.{Version, cmp_int, cmp_pre, then_by, compare_version}

pub cmp_int-flip : (a b : ℤ) → cmp_int b a ≡ flip (cmp_int a b)
cmp_int-flip (pos a) (pos b) = ground arith
cmp_int-flip (pos a) (negsuc b) = refl
cmp_int-flip (negsuc a) (pos b) = refl
cmp_int-flip (negsuc a) (negsuc b) = ground arith

pub cmp_int→eq : (a b : ℤ) → cmp_int a b ≡ same → a ≡ b
cmp_int→eq (pos a) (pos b) h = ground arith
cmp_int→eq (pos a) (negsuc b) h = cc
cmp_int→eq (negsuc a) (pos b) h = cc
cmp_int→eq (negsuc a) (negsuc b) h = ground arith

pub cmp_int_self : (a : ℤ) → cmp_int a a ≡ same
cmp_int_self (pos a) = ground arith
cmp_int_self (negsuc a) = ground arith

cmp_int_trans : (a b c : ℤ) → cmp_int a b ≡ below → cmp_int b c ≡ below → cmp_int a c ≡ below
cmp_int_trans (pos a) (pos b) (pos c) h k = ground arith
cmp_int_trans (pos a) (pos b) (negsuc c) h k = cc
cmp_int_trans (pos a) (negsuc b) c h k = cc
cmp_int_trans (negsuc a) (pos b) (pos c) h k = refl
cmp_int_trans (negsuc a) (pos b) (negsuc c) h k = cc
cmp_int_trans (negsuc a) (negsuc b) (pos c) h k = refl
cmp_int_trans (negsuc a) (negsuc b) (negsuc c) h k = ground arith

cmp_pre-flip : (s t : Text) → cmp_pre t s ≡ flip (cmp_pre s t)
cmp_pre-flip [] [] = refl
cmp_pre-flip [] (d ∷ t) = refl
cmp_pre-flip (c ∷ s) [] = refl
cmp_pre-flip (c ∷ s) (d ∷ t) = compare_text-flip (c ∷ s) (d ∷ t)

cmp_pre→eq : (s t : Text) → cmp_pre s t ≡ same → s ≡ t
cmp_pre→eq [] [] h = refl
cmp_pre→eq [] (d ∷ t) h = cc
cmp_pre→eq (c ∷ s) [] h = cc
cmp_pre→eq (c ∷ s) (d ∷ t) h = compare_text→eq (c ∷ s) (d ∷ t) h

cmp_pre_trans : (s t u : Text) → cmp_pre s t ≡ below → cmp_pre t u ≡ below → cmp_pre s u ≡ below
cmp_pre_trans [] [] u h k = cc
cmp_pre_trans [] (d ∷ t) u h k = cc
cmp_pre_trans (c ∷ s) [] [] h k = cc
cmp_pre_trans (c ∷ s) [] (e ∷ u) h k = cc
cmp_pre_trans (c ∷ s) (d ∷ t) [] h k = refl
cmp_pre_trans (c ∷ s) (d ∷ t) (e ∷ u) h k = compare_text_trans (c ∷ s) (d ∷ t) (e ∷ u) h k

flip-then_by : (x y : Sign) → then_by (flip x) (flip y) ≡ flip (then_by x y)
flip-then_by below y = refl
flip-then_by same y = refl
flip-then_by above y = refl

then_by-same : (x y : Sign) → then_by x y ≡ same → (x ≡ same) × (y ≡ same)
then_by-same below y h = cc
then_by-same same y h = (refl, h)
then_by-same above y h = cc

-- A comparison whose results chain: `x`, `y` and `z` compare the first with the second, the second
-- with the third and the first with the third.
abbrev pub Chains : Sign → Sign → Sign → Type 0
Chains x y z = (x ≡ below → y ≡ below → z ≡ below) × (x ≡ same → z ≡ y) × (y ≡ same → z ≡ x)

Chains-then_by :
    (x y z x' y' z' : Sign)
    → Chains x y z
    → Chains x' y' z'
    → Chains (then_by x x') (then_by y y') (then_by z z')
Chains-then_by same same z x' y' z' h k = rw (h.1 refl) k
Chains-then_by same below z x' y' z' h k = rw (h.1 refl) (λ _ _. refl, λ _. refl, λ e. cc)
Chains-then_by same above z x' y' z' h k = rw (h.1 refl) (λ _ e. cc, λ _. refl, λ e. cc)
Chains-then_by below below z x' y' z' h k = rw (h.0 refl refl) (λ _ _. refl, λ e. cc, λ e. cc)
Chains-then_by below same z x' y' z' h k = rw (h.2 refl) (λ _ _. refl, λ e. cc, λ _. refl)
Chains-then_by below above z x' y' z' h k = (λ _ e. cc, λ e. cc, λ e. cc)
Chains-then_by above below z x' y' z' h k = (λ e _. cc, λ e. cc, λ e. cc)
Chains-then_by above same z x' y' z' h k = rw (h.2 refl) (λ e _. cc, λ e. cc, λ _. refl)
Chains-then_by above above z x' y' z' h k = (λ e _. cc, λ e. cc, λ e. cc)

Chains-cmp_int : (a b c : ℤ) → Chains (cmp_int a b) (cmp_int b c) (cmp_int a c)
Chains-cmp_int a b c = (
  cmp_int_trans a b c,
  λ e. ap (λ d. cmp_int d c) (cmp_int→eq a b e),
  λ e. ap (λ d. cmp_int a d) (sym (cmp_int→eq b c e)),
)

Chains-cmp_pre : (s t u : Text) → Chains (cmp_pre s t) (cmp_pre t u) (cmp_pre s u)
Chains-cmp_pre s t u = (
  cmp_pre_trans s t u,
  λ e. ap (λ d. cmp_pre d u) (cmp_pre→eq s t e),
  λ e. ap (λ d. cmp_pre s d) (sym (cmp_pre→eq t u e)),
)

pub compare_version-Chains :
    (v w u : Version) → Chains (compare_version v w) (compare_version w u) (compare_version v u)
unfolding compare_version
compare_version-Chains v w u = Chains-then_by _ _ _ _ _ _ (Chains-cmp_int v.major w.major u.major) (
    Chains-then_by _ _ _ _ _ _ (Chains-cmp_int v.minor w.minor u.minor) (
      Chains-then_by _ _ _ _ _ _ (Chains-cmp_int v.patch w.patch u.patch)
        (Chains-cmp_pre v.pre w.pre u.pre)))

pub compare_version-flip : (v w : Version) → compare_version w v ≡ flip (compare_version v w)
unfolding compare_version
compare_version-flip v w = simp (
  cmp_int-flip v.major w.major,
  cmp_int-flip v.minor w.minor,
  cmp_int-flip v.patch w.patch,
  cmp_pre-flip v.pre w.pre,
  flip-then_by,
)

same_of_flip : (x : Sign) → x ≡ flip x → x ≡ same
same_of_flip below e = cc
same_of_flip same e = refl
same_of_flip above e = cc

pub compare_version_self : (v : Version) → compare_version v v ≡ same
compare_version_self v = same_of_flip (compare_version v v) (compare_version-flip v v)

pub compare_version→eq : (v w : Version) → compare_version v w ≡ same → v ≡ w
unfolding compare_version
compare_version→eq v w h =
    let (a, h₁) = then_by-same _ _ h in
    let (b, h₂) = then_by-same _ _ h₁ in
    let (c, d) = then_by-same _ _ h₂ in
    λ i. record {
      major = cmp_int→eq v.major w.major a i;
      minor = cmp_int→eq v.minor w.minor b i;
      patch = cmp_int→eq v.patch w.patch c i;
      pre = cmp_pre→eq v.pre w.pre d i;
    }

-- `Compare` is a total order: swapping the versions turns the sign round, equal versions alone
-- compare as 0, and -1 is transitive.
pub compare_version_total_order :
    (v w u : Version)
    → (compare_version w v ≡ flip (compare_version v w))
      × ((compare_version v w ≡ same) ↔ (v ≡ w))
      × (compare_version v w ≡ below → compare_version w u ≡ below → compare_version v u ≡ below)
compare_version_total_order v w u = (
  compare_version-flip v w,
  (compare_version→eq v w, λ e. subst (λ x. compare_version v x ≡ same) e (compare_version_self v)),
  (compare_version-Chains v w u).0,
)
