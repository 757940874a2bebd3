-- ===== src/Tests/Paths.antt =====
-- Paths at concrete data.
use azure_s_sftp.Base.{◌≡◌, refl, [], ◌∷◌, codes}
use azure_s_sftp.FilePath.{clean, join, base, dir, ext}

clean_runs :
    (clean (codes "/a//b/./../c/") ≡ codes "/a/c")
    × (clean (codes "../../x") ≡ codes "../../x")
    × (clean (codes "/../x") ≡ codes "/x")
    × (clean (codes "a/..") ≡ codes ".")
    × (clean (codes "/") ≡ codes "/")
unfolding clean
clean_runs = (refl, refl, refl, refl, refl)

parts_run :
    (base (codes "/a/b.txt") ≡ codes "b.txt")
    × (base (codes "//") ≡ codes "/")
    × (dir (codes "/a/b.txt") ≡ codes "/a")
    × (dir (codes "b") ≡ codes ".")
    × (ext (codes "/a.d/b") ≡ [])
    × (ext (codes "/a.d/b.tar.gz") ≡ codes ".gz")
    × (join (codes "" ∷ codes "a" ∷ codes "../b" ∷ []) ≡ codes "b")
unfolding base dir ext join
parts_run = (refl, refl, refl, refl, refl, refl, refl)
