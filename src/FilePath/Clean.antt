-- ===== src/FilePath/Clean.antt =====
-- What `filepath.Clean` and `filepath.Join` return.
use azure_s_sftp.Base.{
  ℕ, ◌≡◌, refl, sym, ◌∙◌, ap, true, List, [], ◌∷◌, ◌++◌, append-nil, append_assoc, Text, ◌==◌, All,
}
use azure_s_sftp.FilePath.{slash, split_slash, join_slash, is_abs, push_all, clean, join}
use azure_s_sftp.FilePath.Segments.{
  IsName, split_slash-append, split_slash-IsSegment, split_slash-join_slash, push_all-append,
  split_slash_single, push_all_names, push_all-IsName, All-reverse, IsName-IsSegment,
}
use mathlib.Core.List.{reverse, reverse-cons, reverse-append, reverse-reverse}

-- A rooted path in the form that `Clean` returns.
abbrev pub rooted : List Text → Text
rooted segs = slash ∷ join_slash segs

abbrev pub clean_segments : Text → List Text
clean_segments p = reverse (push_all true (split_slash p) [])

pub clean_abs : (p : Text) → is_abs p ≡ true → clean p ≡ rooted (clean_segments p)
unfolding is_abs clean
clean_abs [] h = cc
clean_abs (c ∷ p) h = rw h

pub clean_segments-IsName : (p : Text) → All IsName (clean_segments p)
clean_segments-IsName p =
    All-reverse _ (push_all-IsName (split_slash p) [] (split_slash-IsSegment p) tt)

-- Reading the segments of a clean rooted path puts them on the stack.
pub push_all-rooted :
    (segs stack : List Text)
    → All IsName segs
    → push_all true (split_slash (rooted segs)) stack ≡ reverse segs ++ stack
unfolding split_slash join_slash push_all
push_all-rooted [] stack h = refl
push_all-rooted (x ∷ r) stack h =
    rw (split_slash-join_slash x r (IsName-IsSegment (x ∷ r) h))
      (push_all_names true (x ∷ r) stack h)

-- A clean path is left as it is.
pub clean-rooted : (segs : List Text) → All IsName segs → clean (rooted segs) ≡ rooted segs
unfolding clean is_abs
clean-rooted segs h = rw (push_all-rooted segs [] h) (rw append-nil (rw reverse-reverse refl))

-- The stack after the first path, and a second path behind it.
pub push_all_joined :
    (cs : List Text) (q : Text)
    → All IsName cs
    → push_all true (split_slash (rooted cs ++ (slash ∷ q))) []
      ≡ push_all true (split_slash q) (reverse cs)
push_all_joined cs q hc =
    ap (λ xs. push_all true xs []) (split_slash-append (rooted cs) q)
    ∙ (push_all-append true (split_slash (rooted cs)) (split_slash q) []
        ∙ ap (λ xs. push_all true (split_slash q) xs)
            (push_all-rooted cs [] hc ∙ append-nil (reverse cs)))

-- `Join` of a clean rooted path and any path that is not empty reads the second on the stack of
-- the first.
pub join_stack :
    (cs : List Text) (a : ℕ) (q : Text)
    → All IsName cs
    → join (rooted cs ∷ (a ∷ q) ∷ [])
      ≡ rooted (reverse (push_all true (split_slash (a ∷ q)) (reverse cs)))
unfolding join is_abs
join_stack cs a q hc =
    clean_abs (rooted cs ++ (slash ∷ a ∷ q)) refl
    ∙ ap (λ xs. rooted (reverse xs)) (push_all_joined cs (a ∷ q) hc)

-- Joining two clean rooted paths puts the segments of the one behind those of the other.
pub join-rooted :
    (cs fs : List Text)
    → All IsName cs
    → All IsName fs
    → join (rooted cs ∷ rooted fs ∷ []) ≡ rooted (cs ++ fs)
join-rooted cs fs hc hf =
    join_stack cs slash (join_slash fs) hc
    ∙ ap (λ xs. rooted (reverse xs)) (push_all-rooted fs (reverse cs) hf)
    ∙ ap rooted (ap reverse (sym (reverse-append cs fs)) ∙ reverse-reverse (cs ++ fs))

-- A path lies within a directory: it is that directory, or goes on behind it with a slash.
pub data Within (root : Text) (p : Text) : Type 0 where
  same : p ≡ root → Within root p
  below : (r : Text) → p ≡ root ++ (slash ∷ r) → Within root p

pub join_slash-append :
    (x : Text) (r : List Text) (y : Text) (s : List Text)
    → join_slash ((x ∷ r) ++ (y ∷ s)) ≡ join_slash (x ∷ r) ++ (slash ∷ join_slash (y ∷ s))
unfolding join_slash
join_slash-append x [] y s = refl
join_slash-append x (z ∷ r) y s =
    ap (λ t. x ++ (slash ∷ t)) (join_slash-append z r y s)
    ∙ sym (append_assoc x (slash ∷ join_slash (z ∷ r)) (slash ∷ join_slash (y ∷ s)))

-- What has the segments of a directory in front lies within it.
pub rooted-Within : (x : Text) (r fs : List Text) → Within (rooted (x ∷ r)) (rooted ((x ∷ r) ++ fs))
rooted-Within x r [] = same (ap rooted (append-nil (x ∷ r)))
rooted-Within x r (y ∷ s) =
    below (join_slash (y ∷ s)) (ap (λ t. slash ∷ t) (join_slash-append x r y s))

-- Joining a name to a clean rooted path puts it at the end.
pub join_name :
    (cs : List Text) (seg : Text)
    → All IsName cs
    → IsName seg
    → join (rooted cs ∷ seg ∷ []) ≡ rooted (cs ++ (seg ∷ []))
unfolding ◌==◌
join_name cs [] hc h = cc (h.not_empty)
join_name cs (a ∷ q) hc h =
    join_stack cs a q hc
    ∙ ap (λ xs. rooted (reverse (push_all true xs (reverse cs))))
        (split_slash_single (a ∷ q) h.no_slash)
    ∙ ap (λ xs. rooted (reverse xs)) (push_all_names true ((a ∷ q) ∷ []) (reverse cs) (h, tt))
    ∙ ap rooted
        (reverse-cons (a ∷ q) (reverse cs) ∙ ap (λ xs. xs ++ ((a ∷ q) ∷ [])) (reverse-reverse cs))
