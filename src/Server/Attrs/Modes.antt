-- ===== src/Server/Attrs/Modes.antt =====
-- The mode of a file survives the way to the protocol's terms and back.
use azure_s_sftp.Base.{
  ℕ, ◌+◌, ◌*◌, ◌/◌, ◌%◌, ◌<◌, ◌≡◌, refl, Bool, true, false, ◌||◌, ◌&&◌, not, arith,
}
use azure_s_sftp.Server.{FileMode}
use azure_s_sftp.Server.Attrs.{
  bit_of, is_regular, is_set, type_bits, from_file_mode, mode_of, to_file_mode,
}

-- The types of a file that the protocol has, with their four bits.
pub data Kind : Type 0 where
  regular directory link pipe sock block character : Kind

abbrev pub code_of_kind : Kind → ℕ
code_of_kind Kind.regular = 8
code_of_kind Kind.directory = 4
code_of_kind Kind.link = 10
code_of_kind Kind.pipe = 1
code_of_kind Kind.sock = 12
code_of_kind Kind.block = 6
code_of_kind Kind.character = 2

abbrev is_directory : Kind → Bool
is_directory Kind.directory = true
is_directory _ = false

abbrev is_link : Kind → Bool
is_link Kind.link = true
is_link _ = false

abbrev is_pipe : Kind → Bool
is_pipe Kind.pipe = true
is_pipe _ = false

abbrev is_sock : Kind → Bool
is_sock Kind.sock = true
is_sock _ = false

abbrev is_character : Kind → Bool
is_character Kind.character = true
is_character _ = false

abbrev is_device : Kind → Bool
is_device Kind.block = true
is_device Kind.character = true
is_device _ = false

-- The mode that package os gives a file of that type, with its bits of execution and its
-- permissions: a directory, a link, a pipe and a socket have the bit of their type and no other, a
-- character device that of a device as well, and a regular file has none.
abbrev pub plain_mode : Kind → Bool → Bool → Bool → ℕ → FileMode
plain_mode k u g s p = record {
  perm = p;
  dir = is_directory k;
  symlink = is_link k;
  device = is_device k;
  char_device = is_character k;
  named_pipe = is_pipe k;
  socket = is_sock k;
  irregular = false;
  setuid = u;
  setgid = g;
  sticky = s;
}

mode_of_lem :
    (k : Kind) (u g s : Bool) (p : ℕ) → mode_of (code_of_kind k) u g s p ≡ plain_mode k u g s p
unfolding mode_of
mode_of_lem Kind.regular u g s p = refl
mode_of_lem Kind.directory u g s p = refl
mode_of_lem Kind.link u g s p = refl
mode_of_lem Kind.pipe u g s p = refl
mode_of_lem Kind.sock u g s p = refl
mode_of_lem Kind.block u g s p = refl
mode_of_lem Kind.character u g s p = refl

bit_of-is_set : (b : Bool) → is_set (bit_of b) ≡ b
bit_of-is_set true = refl
bit_of-is_set false = refl

bit_of-lt : (b : Bool) → bit_of b < 2
bit_of-lt true = omega arith
bit_of-lt false = omega arith

code_of_kind-lt : (k : Kind) → code_of_kind k < 16
code_of_kind-lt Kind.regular = omega arith
code_of_kind-lt Kind.directory = omega arith
code_of_kind-lt Kind.link = omega arith
code_of_kind-lt Kind.pipe = omega arith
code_of_kind-lt Kind.sock = omega arith
code_of_kind-lt Kind.block = omega arith
code_of_kind-lt Kind.character = omega arith

type_bits_lem :
    (k : Kind) (u g s : Bool) (p : ℕ) → type_bits (plain_mode k u g s p) ≡ code_of_kind k
unfolding type_bits mode_of
type_bits_lem Kind.regular u g s p = refl
type_bits_lem Kind.directory u g s p = refl
type_bits_lem Kind.link u g s p = refl
type_bits_lem Kind.pipe u g s p = refl
type_bits_lem Kind.sock u g s p = refl
type_bits_lem Kind.block u g s p = refl
type_bits_lem Kind.character u g s p = refl

-- A number that is put together from the parts of a mode.
abbrev whole : ℕ → ℕ → ℕ → ℕ → ℕ → ℕ
whole t u g s p = t * 4096 + u * 2048 + g * 1024 + s * 512 + p

module _ (t u g s p : ℕ) (ht : t < 16) (hu : u < 2) (hg : g < 2) (hs : s < 2) (hp : p < 512) where
  parts :
      (whole t u g s p / 4096 % 16 ≡ t)
      × (whole t u g s p / 2048 % 2 ≡ u)
      × (whole t u g s p / 1024 % 2 ≡ g)
      × (whole t u g s p / 512 % 2 ≡ s)
      × (whole t u g s p % 512 ≡ p)
  parts = (omega arith, omega arith, omega arith, omega arith, omega arith)

  whole_lt : whole t u g s p < 65536
  whole_lt = omega arith

module _ (k : Kind) (u g s : Bool) (p : ℕ) (h : p < 512) where
  from_file_mode_lem :
      from_file_mode (plain_mode k u g s p)
      ≡ whole (code_of_kind k) (bit_of u) (bit_of g) (bit_of s) p
  unfolding from_file_mode mode_of
  from_file_mode_lem = rw (type_bits_lem k u g s p)

  -- The mode of a file of every type, with any bits of execution and permissions, is read back from
  -- the protocol's number for it: the bits that package os gives that type, and no others.
  pub to_file_mode-from_file_mode :
      to_file_mode (from_file_mode (plain_mode k u g s p)) ≡ plain_mode k u g s p
  unfolding to_file_mode
  to_file_mode-from_file_mode =
      let (a, b, c, d, e) =
        parts (code_of_kind k) (bit_of u) (bit_of g) (bit_of s) p (code_of_kind-lt k) (bit_of-lt u)
          (bit_of-lt g) (bit_of-lt s) h in
      rw (from_file_mode_lem, a, b, c, d, e, bit_of-is_set u, bit_of-is_set g, bit_of-is_set s)
        (mode_of_lem k u g s p)

module _ (m : FileMode) (h : m.perm < 512) where
  type_bits-lt : type_bits m < 16
  unfolding type_bits
  type_bits-lt = omega (
    arith,
    bit_of-lt (m.symlink || m.socket || is_regular m),
    bit_of-lt (m.device && not m.char_device || m.dir || m.socket),
    bit_of-lt (m.device || m.symlink),
    bit_of-lt m.named_pipe,
  )

  -- A mode fits into 16 bits.
  pub from_file_mode-lt : from_file_mode m < 65536
  unfolding from_file_mode
  from_file_mode-lt =
      whole_lt (type_bits m) (bit_of m.setuid) (bit_of m.setgid) (bit_of m.sticky) m.perm
        type_bits-lt (bit_of-lt m.setuid) (bit_of-lt m.setgid) (bit_of-lt m.sticky) h
