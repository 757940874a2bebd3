-- ===== src/Server/Fresh.antt =====
-- No session gives a handle twice.
use azure_s_sftp.Base.{
  ℕ, ◌+◌, ◌≤◌, ◌<◌, ◌≡◌, ◌≢◌, refl, sym, ◌∙◌, inl, inr, List, [], ◌∷◌, Option, none, some, Text,
  All, arith, Distinct, subst, ◌++◌,
}
use azure_s_sftp.Server.{Server, Packet, Response, Host, itoa}
use azure_s_sftp.Server.Handles.{itoa_injective}
use azure_s_sftp.Server.Packets.{Reply, serve_packet}
use azure_s_sftp.Server.Counts.{Gives, GivesReply, serve_packet-Gives}
use azure_s_sftp.Server.Serving.{handle_of, handles_given, worker, serve}

-- The handles are the numbers of the calls of `nextHandle`, in their order.
Counting : ℕ → List Text → Type 0
Counting n [] = Unit
Counting n (h ∷ hs) = (k : ℕ) × (n < k) × (h ≡ itoa k) × Counting k hs

Counting-fresh : (j n : ℕ) (hs : List Text) → j ≤ n → Counting n hs → All (λ h. itoa j ≢ h) hs
unfolding Counting
Counting-fresh j n [] le c = tt
Counting-fresh j n (h ∷ hs) le (k, lt, e, c) = (
  λ same. let same' = itoa_injective j k (same ∙ e) in absurd (omega arith),
  Counting-fresh j k hs (omega arith) c,
)

Counting-Distinct : (n : ℕ) (hs : List Text) → Counting n hs → Distinct hs
unfolding Counting
Counting-Distinct n [] c = tt
Counting-Distinct n (h ∷ hs) (k, lt, e, c) = (
  subst (λ t. All (λ g. t ≢ g) hs) (sym e) (Counting-fresh k k hs (omega arith) c),
  Counting-Distinct k hs c,
)

handles_given-cons :
    (r : Response) (rs : List Response) → handles_given (r ∷ rs) ≡ handle_of r ++ handles_given rs
unfolding handles_given
handles_given-cons Response.version rs = refl
handles_given-cons (Response.status id c e) rs = refl
handles_given-cons (Response.attrs id i) rs = refl
handles_given-cons (Response.name id ns) rs = refl
handles_given-cons (Response.handle id h) rs = refl
handles_given-cons (Response.content id b) rs = refl
handles_given-cons (Response.file_system id f) rs = refl

Counting-step :
    (n : ℕ) (s : Server) (r : Response) (hs : List Text)
    → Gives n (s, r)
    → Counting s.handle_count hs
    → Counting n (handle_of r ++ hs)
unfolding Counting
Counting-step n s r hs (inl (e, k)) c = rw e (subst (λ m. Counting m hs) k c)
Counting-step n s r hs (inr (e, k)) c =
    rw e (n + 1, omega arith, refl, subst (λ m. Counting m hs) k c)

module _ (host : Host) (id_of : Packet → ℕ) where
  worker-Counting :
      (s : Server) (ps : List Packet)
      → Counting s.handle_count (handles_given (worker host id_of s ps).1)
  unfolding worker handles_given Counting
  worker-Counting s [] = tt
  worker-Counting s (p ∷ ps) =
      go (serve_packet host id_of s p) (serve_packet-Gives host id_of s p)
        (λ s'. worker-Counting s' ps)
    where
      go :
          (o : Option Reply)
          → GivesReply s.handle_count o
          → ((s' : Server) → Counting s'.handle_count (handles_given (worker host id_of s' ps).1))
          → Counting s.handle_count (
              handles_given
                (elim o as (λ _. Server × List Response) [
                  | none ↦ (s, [])
                  | some (s', r) ↦ let (s'', rs) = worker host id_of s' ps in (s'', r ∷ rs)
                ]).1)
      go none g rest = tt
      go (some (s', r)) g rest =
          rw (handles_given-cons r (worker host id_of s' ps).1)
            (Counting-step s.handle_count s' r _ g (rest s'))

  -- Whatever packets a client sends, and whatever it has closed in between: no two answers of a
  -- session give the same handle.
  pub serve-Distinct :
      (s : Server) (ps : List Packet) → Distinct (handles_given (serve host id_of s ps).1)
  unfolding serve
  serve-Distinct s ps = Counting-Distinct s.handle_count _ (worker-Counting s ps)
