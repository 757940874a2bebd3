-- ===== src/FilePath/Parts.antt =====
-- What `filepath.Base`, `filepath.Split` and `filepath.Clean` return on a path with a last name.
use azure_s_sftp.Base.{
  ℕ, ◌≡◌, refl, sym, ◌∙◌, ap, false, List, [], ◌∷◌, ◌++◌, append-nil, append_assoc, Text, ◌==◌, All,
  All-append,
}
use azure_s_sftp.FilePath.{
  slash, split_slash, join_slash, is_abs, push_all, push, clean, base, split_dir, from_slash,
  strip_slashes, last_segment,
}
use azure_s_sftp.FilePath.Segments.{IsSegment, IsName}
use azure_s_sftp.FilePath.Clean.{rooted, clean_abs, push_all_joined, join_slash-append}
use mathlib.Core.List.{reverse, reverse-cons, reverse-append, reverse-reverse}

IsSegment-reverse : (s : Text) → IsSegment s → IsSegment (reverse s)
IsSegment-reverse [] h = tt
IsSegment-reverse (c ∷ s) h =
    rw reverse-cons (All-append _ (reverse s) (c ∷ []) (IsSegment-reverse s h.1) (h.0, tt))

from_slash-append : (s t : Text) → IsSegment s → from_slash (s ++ (slash ∷ t)) ≡ slash ∷ t
unfolding from_slash
from_slash-append [] t h = refl
from_slash-append (c ∷ s) t h = rw (h.0, from_slash-append s t h.1)

last_segment-append :
    (acc s t : Text) → IsSegment s → last_segment acc (s ++ (slash ∷ t)) ≡ reverse s ++ acc
unfolding last_segment
last_segment-append acc [] t h = refl
last_segment-append acc (c ∷ s) t h =
    rw (h.0, last_segment-append (c ∷ acc) s t h.1)
      (rw reverse-cons (sym (append_assoc (reverse s) (c ∷ []) acc)))

-- A path with a name at its end, read backwards.
backwards : (q s : Text) → reverse (q ++ (slash ∷ s)) ≡ reverse s ++ (slash ∷ reverse q)
backwards q s =
    reverse-append q (slash ∷ s)
    ∙ (ap (λ t. t ++ reverse q) (reverse-cons slash s)
        ∙ append_assoc (reverse s) (slash ∷ []) (reverse q))

pub split_dir-append : (q s : Text) → IsSegment s → split_dir (q ++ (slash ∷ s)) ≡ q ++ (slash ∷ [])
unfolding split_dir
split_dir-append q s h =
    ap (λ t. reverse (from_slash t)) (backwards q s)
    ∙ (ap reverse (from_slash-append (reverse s) (reverse q) (IsSegment-reverse s h))
        ∙ (reverse-cons slash (reverse q) ∙ ap (λ t. t ++ (slash ∷ [])) (reverse-reverse q)))

-- What stands behind the last slash, if it is a name.
strip_slashes-append :
    (s t : Text) → IsSegment s → (s == []) ≡ false → strip_slashes (s ++ t) ≡ s ++ t
unfolding strip_slashes ◌==◌
strip_slashes-append [] t h n = cc
strip_slashes-append (c ∷ s) t h n = rw h.0

snoc_not_empty : (s : Text) (c : ℕ) → ((s ++ (c ∷ [])) == []) ≡ false
unfolding ◌==◌
snoc_not_empty [] c = refl
snoc_not_empty (d ∷ s) c = refl

reverse_not_empty : (s : Text) → (s == []) ≡ false → (reverse s == []) ≡ false
unfolding ◌==◌
reverse_not_empty [] n = cc
reverse_not_empty (c ∷ s) n = ap (λ t. t == []) (reverse-cons c s) ∙ snoc_not_empty (reverse s) c

-- The last name of a path that is read backwards.
abbrev last_of : Text → Text
last_of [] = slash ∷ []
last_of (d ∷ r) = last_segment [] (d ∷ r)

last_of-append :
    (s t : Text) → IsSegment s → (s == []) ≡ false → last_of (s ++ (slash ∷ t)) ≡ reverse s
unfolding last_segment ◌==◌
last_of-append [] t h n = cc
last_of-append (c ∷ s) t h n = last_segment-append [] (c ∷ s) t h ∙ append-nil (reverse (c ∷ s))

base-last_of : (c : ℕ) (p : Text) → base (c ∷ p) ≡ last_of (strip_slashes (reverse (c ∷ p)))
unfolding base
base-last_of c p = go (strip_slashes (reverse (c ∷ p)))
  where
    go :
        (t : Text)
        → (elim t as (λ _. Text) [ [] ↦ slash ∷ [] | d ∷ r ↦ last_segment [] (d ∷ r) ]) ≡ last_of t
    go [] = refl
    go (d ∷ r) = refl

pub base-append : (c : ℕ) (q s : Text) → IsName s → base ((c ∷ q) ++ (slash ∷ s)) ≡ s
base-append c q s h =
    let n = reverse_not_empty s h.not_empty in
    let g = IsSegment-reverse s h.no_slash in
    base-last_of c (q ++ (slash ∷ s))
    ∙ (ap (λ t. last_of (strip_slashes t)) (backwards (c ∷ q) s)
        ∙ (ap last_of (strip_slashes-append (reverse s) (slash ∷ reverse (c ∷ q)) g n)
            ∙ (last_of-append (reverse s) (reverse (c ∷ q)) g n ∙ reverse-reverse s)))

pub clean_trailing :
    (xs : List Text) → All IsName xs → clean (rooted xs ++ (slash ∷ [])) ≡ rooted xs
unfolding is_abs split_slash push_all push ◌==◌
clean_trailing xs h =
    clean_abs (rooted xs ++ (slash ∷ [])) refl
    ∙ (ap (λ ys. rooted (reverse ys)) (push_all_joined xs [] h) ∙ ap rooted (reverse-reverse xs))

-- The last name of a rooted path stands behind a slash.
pub rooted_snoc :
    (x : Text) (r : List Text) (s : Text)
    → rooted ((x ∷ r) ++ (s ∷ [])) ≡ rooted (x ∷ r) ++ (slash ∷ s)
unfolding join_slash
rooted_snoc x r s = ap (λ t. slash ∷ t) (join_slash-append x r s [])

-- The directory and the name of a rooted path.
pub dir_of_snoc :
    (x : Text) (r : List Text) (s : Text)
    → All IsName (x ∷ r)
    → IsName s
    → clean (split_dir (rooted ((x ∷ r) ++ (s ∷ [])))) ≡ rooted (x ∷ r)
dir_of_snoc x r s h n =
    ap (λ t. clean (split_dir t)) (rooted_snoc x r s)
    ∙ (ap clean (split_dir-append (rooted (x ∷ r)) s n.no_slash) ∙ clean_trailing (x ∷ r) h)

pub base_of_snoc :
    (x : Text) (r : List Text) (s : Text) → IsName s → base (rooted ((x ∷ r) ++ (s ∷ []))) ≡ s
base_of_snoc x r s n = ap base (rooted_snoc x r s) ∙ base-append slash (join_slash (x ∷ r)) s n
