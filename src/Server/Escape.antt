-- ===== src/Server/Escape.antt =====
-- A request with a relative path that begins with `..`.
use azure_s_sftp.Base.{◌≡◌, refl, ◌∙◌, ap, true, false, List, [], ◌∷◌, ◌++◌, Text, codes, All}
use azure_s_sftp.FilePath.{
  split_slash, join_slash, is_abs, push_all, push, pop, render, clean, join,
}
use azure_s_sftp.FilePath.Segments.{
  IsName, split_slash-join_slash, push_all_names, IsName-IsSegment,
}
use azure_s_sftp.FilePath.Clean.{rooted, join_stack}
use azure_s_sftp.Server.{Server, get_user_jail_path}
use azure_s_sftp.Server.Jail.{
  IsJailed, has_whole_share, own_directory, chroot_own, jail_path_not_empty, own_directory-IsName,
}
use mathlib.Core.Path.{ap₂}
use mathlib.Core.List.{reverse, reverse-append, reverse-reverse}

-- The request `../f/...`
abbrev pub climbing : Text → List Text → Text
climbing f fs = codes "../" ++ join_slash (f ∷ fs)

climbing_segments :
    (f : Text) (fs : List Text)
    → All IsName (f ∷ fs)
    → split_slash (climbing f fs) ≡ codes ".." ∷ f ∷ fs
unfolding join_slash
climbing_segments f fs h =
    split_slash-join_slash (codes "..") (f ∷ fs) ((refl, (refl, tt)), IsName-IsSegment (f ∷ fs) h)

-- Below no root the two dots stay in front.
clean-climbing :
    (f : Text) (fs : List Text) → All IsName (f ∷ fs) → clean (climbing f fs) ≡ climbing f fs
unfolding clean is_abs push_all push pop join_slash
clean-climbing f fs h =
    ap (λ xs. render false (reverse (push_all false xs (codes ".." ∷ []))))
      (split_slash-join_slash f fs (IsName-IsSegment (f ∷ fs) h))
    ∙ ap (λ xs. render false (reverse xs)) (push_all_names false (f ∷ fs) (codes ".." ∷ []) h)
    ∙ ap (render false) (
        reverse-append (reverse (f ∷ fs)) (codes ".." ∷ [])
        ∙ ap (λ xs. codes ".." ∷ xs) (reverse-reverse (f ∷ fs)))

popped :
    (d f : Text) (fs st : List Text)
    → IsName d
    → All IsName (f ∷ fs)
    → push_all true (codes ".." ∷ f ∷ fs) (d ∷ st) ≡ reverse (f ∷ fs) ++ st
unfolding push_all push pop
popped d f fs st hd h = rw hd.not_dot_dot (push_all_names true (f ∷ fs) st h)

-- On the stack of a path the two dots take away its last segment.
climbing_stack :
    (cs : List Text) (d f : Text) (fs : List Text)
    → All IsName (cs ++ (d ∷ []))
    → IsName d
    → All IsName (f ∷ fs)
    → join (rooted (cs ++ (d ∷ [])) ∷ climbing f fs ∷ []) ≡ rooted (cs ++ (f ∷ fs))
climbing_stack cs d f fs hc hd h =
    join_stack (cs ++ (d ∷ [])) 46 (codes "./" ++ join_slash (f ∷ fs)) hc
    ∙ ap (λ xs. rooted (reverse (push_all true xs (reverse (cs ++ (d ∷ []))))))
        (climbing_segments f fs h)
    ∙ ap (λ xs. rooted (reverse (push_all true (codes ".." ∷ f ∷ fs) xs)))
        (reverse-append cs (d ∷ []))
    ∙ ap (λ xs. rooted (reverse xs)) (popped d f fs (reverse cs) hd h)
    ∙ ap rooted (
        reverse-append (reverse (f ∷ fs)) (reverse cs)
        ∙ ap₂ (λ xs ys. xs ++ ys) (reverse-reverse cs) (reverse-reverse (f ∷ fs)))

-- For a user with a directory of their own, the path of `../f/...` is that of `f/...` in the shared
-- directory.
pub get_user_jail_path_climbs :
    (svr : Server) (x : Text) (xs : List Text)
    → IsJailed svr x xs
    → has_whole_share svr ≡ false
    → (f : Text) (fs : List Text) → All IsName (f ∷ fs)
    → get_user_jail_path svr (climbing f fs) ≡ rooted ((x ∷ xs) ++ (f ∷ fs))
unfolding get_user_jail_path own_directory is_abs
get_user_jail_path_climbs svr x xs j part f fs h =
    let d = svr.user.jail_directory in
    let own : own_directory svr (x ∷ xs) ≡ (x ∷ xs) ++ (d ∷ []) = rw part in
    let names : All IsName ((x ∷ xs) ++ (d ∷ [])) = rw own at (own_directory-IsName svr x xs j) in
    rw
      (
        jail_path_not_empty svr x xs j,
        clean-climbing f fs h,
        chroot_own svr x xs j (climbing f fs),
        part,
      )
      (climbing_stack (x ∷ xs) d f fs names j.directory h)
