-- ===== src/Images/Sizes.antt =====
-- src/proxy.rs: the sizes that `validate_image_size` accepts, and what an accepted request holds.
use open_ai_lb.Prelude.{
  ℕ, ◌*◌, ◌%◌, ◌≤◌, min, max, String, Bool, true, false, not, Option, none, some, List, [], ◌∷◌,
  ◌≡◌, ◌↔◌, ◌⊎◌, refl, ap, inl, inr, arith, eq_iff, if◌then◌else◌, contains, and_then,
}
use native.Mathlib.Nat.{mul-le-mul}
use open_ai_lb.Errors.{Result, ok, err, panic, ◌>>=◌, ◌>>◌, bad_request}
use open_ai_lb.Json.{Fields, lookup, as_str, string}
use open_ai_lb.Text.{chars, split_once, parse_u64}
use open_ai_lb.Images.{
  require, check, is_aligned, is_proportioned, custom_size, fixed_sizes, is_model,
  validate_image_size, validate_basics, validate_size, validate_options, validate_image_request,
}

-- A size of its own: both sides multiples of 16 up to 3840, between 655360 and 8294400 pixels, and no
-- side longer than three times the other.
abbrev pub IsCustom : ℕ → ℕ → Type 0
IsCustom w h =
    (w ≤ 3840)
    × (h ≤ 3840)
    × (w % 16 ≡ 0)
    × (h % 16 ≡ 0)
    × (655_360 ≤ w * h)
    × (w * h ≤ 8_294_400)
    × (max w h ≤ 3 * min w h)

-- The sides that a text of the form WIDTHxHEIGHT tells.
abbrev pub Reads : List ℕ → ℕ → ℕ → Type 0
Reads s w h =
    (before after : List ℕ) × (split_once (120 ∷ []) s ≡ some (before, after))
    × (parse_u64 before ≡ some w)
    × (parse_u64 after ≡ some h)

-- The product of two sides does not wrap around.
product_fits : (w h : ℕ) → w ≤ 3840 → h ≤ 3840 → w * h ≤ 14_745_600
product_fits w h a b = omega (arith, mul-le-mul a b)

is_aligned_iff :
    (w h : ℕ) → (is_aligned w h ≡ true) ↔ ((w ≤ 3840) × (h ≤ 3840) × (w % 16 ≡ 0) × (h % 16 ≡ 0))
is_aligned_iff w h = (λ e. ground arith, λ k. ground arith)

is_proportioned_iff :
    (w h : ℕ)
    → w * h ≤ 14_745_600
    → (is_proportioned w h ≡ true)
      ↔ ((655_360 ≤ w * h) × (w * h ≤ 8_294_400) × (max w h ≤ 3 * min w h))
is_proportioned_iff w h fits = (λ e. ground arith, λ k. ground arith)

sides_iff : (w h : ℕ) → ((is_aligned w h ≡ true) × (is_proportioned w h ≡ true)) ↔ IsCustom w h
sides_iff w h = (sound, complete)
  where
    sound : (is_aligned w h ≡ true) × (is_proportioned w h ≡ true) → IsCustom w h
    sound (e, f) =
        let (a, b, c, d) = (is_aligned_iff w h).0 e in
        let (i, j, k) = (is_proportioned_iff w h (product_fits w h a b)).0 f in
        (a, b, c, d, i, j, k)

    complete : IsCustom w h → (is_aligned w h ≡ true) × (is_proportioned w h ≡ true)
    complete (a, b, c, d, i, j, k) = (
      (is_aligned_iff w h).1 (a, b, c, d),
      (is_proportioned_iff w h (product_fits w h a b)).1 (i, j, k),
    )

-- What `?` lets through.
require-ok :
    {A : Type 0} {B : Type 0} (o : Option A) (message : String) (f : A → Result B) (b : B)
    → (require o message >>= f) ≡ ok b
    → (a : A) × (o ≡ some a) × (f a ≡ ok b)
require-ok none message f b h = cc
require-ok (some a) message f b h = (a, refl, h)

check-ok :
    {B : Type 0} (t : Bool) (message : String) (f : Unit {0} → Result B) (b : B)
    → (check t message >>= f) ≡ ok b
    → (t ≡ true) × (f tt ≡ ok b)
check-ok true message f b h = (refl, h)
check-ok false message f b h = cc

check-true : (t : Bool) (message : String) → check t message ≡ ok tt → t ≡ true
check-true true message h = refl
check-true false message h = cc

custom_size_iff : (s : List ℕ) → (custom_size s ≡ ok tt) ↔ ((w h : ℕ) × Reads s w h × IsCustom w h)
unfolding custom_size
custom_size_iff s = (sound, complete)
  where
    sound : custom_size s ≡ ok tt → (w h : ℕ) × Reads s w h × IsCustom w h
    sound e =
        let ((before, after), split, e₁) = require-ok (split_once (120 ∷ []) s) _ _ tt e in
        let (w, left, e₂) = require-ok (parse_u64 before) _ _ tt e₁ in
        let (h, right, e₃) = require-ok (parse_u64 after) _ _ tt e₂ in
        let (aligned, e₄) = check-ok (is_aligned w h) _ _ tt e₃ in
        let proportioned = check-true (is_proportioned w h) _ e₄ in
        (w, h, (before, after, split, left, right), (sides_iff w h).0 (aligned, proportioned))

    complete : (w h : ℕ) × Reads s w h × IsCustom w h → custom_size s ≡ ok tt
    complete (w, h, (before, after, split, left, right), custom) =
        let (aligned, proportioned) = (sides_iff w h).1 custom in
        rw (split, left, right, aligned, proportioned)

is_model_iff : (o : Option String) (m : String) → (is_model o m ≡ true) ↔ (o ≡ some m)
is_model_iff none m = (λ h. cc, λ h. cc)
is_model_iff (some n) m = (λ h. ap some ((eq_iff n m).0 h), λ h. (eq_iff n m).1 (ground arith))

size_test_iff :
    {C : Type 0} (fixed named : Bool) (message : String) (c : Result (Unit {0}))
    → (c ≡ ok tt) ↔ C
    → ((if fixed then ok tt else if not named then err (bad_request message) else c) ≡ ok tt)
      ↔ ((fixed ≡ true) ⊎ ((named ≡ true) × C))
size_test_iff true named message c k = (λ h. inl refl, λ h. refl)
size_test_iff false true message c k =
    (λ h. inr (refl, k.0 h), λ h. elim h [ inl e ↦ cc | inr (e, p) ↦ k.1 p ])
size_test_iff false false message c k = (λ h. cc, λ h. elim h [ inl e ↦ cc | inr (e, p) ↦ cc ])

-- A size is accepted exactly if it is one of the four fixed ones, or the model is gpt-image-2 and it
-- reads WIDTHxHEIGHT with sides that are multiples of 16 up to 3840, between 655360 and 8294400 pixels,
-- and an aspect ratio up to 3:1. The product of the sides does not overflow.
pub validate_image_size_iff :
    (size : String) (model : Option String)
    → (validate_image_size size model ≡ ok tt) ↔ (
        (contains fixed_sizes size ≡ true)
        ⊎ ((model ≡ some "gpt-image-2") × ((w h : ℕ) × Reads (chars size) w h × IsCustom w h)))
unfolding validate_image_size
validate_image_size_iff size model = (
  λ h.
      elim ((size_test_iff (contains fixed_sizes size) (is_model model "gpt-image-2") _
          (custom_size (chars size)) (custom_size_iff (chars size))).0
        h) [
          | inl fixed ↦ inl fixed
          | inr (named, custom) ↦ inr ((is_model_iff model "gpt-image-2").0 named, custom)
        ],
  λ k.
      (size_test_iff (contains fixed_sizes size) (is_model model "gpt-image-2") _
          (custom_size (chars size)) (custom_size_iff (chars size))).1
        (elim k [
          | inl fixed ↦ inl fixed
          | inr (named, custom) ↦ inr ((is_model_iff model "gpt-image-2").1 named, custom)
        ]),
)

-- Each check of a chain that ends well ended well.
before-ok : (m k : Result (Unit {0})) → (m >> k) ≡ ok tt → m ≡ ok tt
before-ok (ok tt) k h = refl
before-ok (err e) k h = cc
before-ok panic k h = cc

after-ok : (m k : Result (Unit {0})) → (m >> k) ≡ ok tt → k ≡ ok tt
after-ok (ok tt) k h = h
after-ok (err e) k h = cc
after-ok panic k h = cc

-- An image request that is accepted and names a size has a size that is accepted for its model: a fixed
-- one, or one of its own for gpt-image-2 within the bounds.
pub validate_image_request-size :
    (fields : Fields) (size : String)
    → validate_image_request fields ≡ ok tt
    → lookup fields "size" ≡ some (string size)
    → (contains fixed_sizes size ≡ true)
      ⊎ ((and_then (lookup fields "model") as_str ≡ some "gpt-image-2")
          × ((w h : ℕ) × Reads (chars size) w h × IsCustom w h))
unfolding validate_image_request validate_size
validate_image_request-size fields size h e =
    let sized =
      before-ok (validate_size fields) (validate_options fields)
        (after-ok (validate_basics fields) (validate_size fields >> validate_options fields) h) in
    (validate_image_size_iff size (and_then (lookup fields "model") as_str)).0 (rw e at sized)
