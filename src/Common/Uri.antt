-- ===== src/Common/Uri.antt =====
-- The URI of common/io/io.h, and the opening modes of common/io/local_stream.cc.
pub mod Parts
mod Tests
use ddls.Prelude.{
  ℕ, zero, suc, ◌+◌, ◌≡◌, List, [], ◌∷◌, ◌++◌, Option, none, some, Bool, true, false, ◌&&◌, ◌==◌,
  if◌then◌else◌, ◌>>=◌, take, drop, length,
}
use ddls.Common.Configure.{Text, Register, same_text, find, get_value}

pub record Uri : Type 0 where
  pub scheme : Text
  pub host : Text
  pub name : Text
  pub path : Text

abbrev pub slash : ℕ
slash = 47

-- "://", "file", "hdfs" and "default".
abbrev pub separator : Text
separator = 58 ∷ 47 ∷ 47 ∷ []

abbrev pub file : Text
file = 102 ∷ 105 ∷ 108 ∷ 101 ∷ []

abbrev pub hdfs : Text
hdfs = 104 ∷ 100 ∷ 102 ∷ 115 ∷ []

abbrev pub default_host : Text
default_host = 100 ∷ 101 ∷ 102 ∷ 97 ∷ 117 ∷ 108 ∷ 116 ∷ []

unfoldable pub begins : Text → Text → Bool
begins [] text = true
begins (c ∷ pattern) [] = false
begins (c ∷ pattern) (d ∷ text) = (c == d) && begins pattern text

-- std::string::find of a pattern that is not empty.
unfoldable pub find_text : Text → Text → Option ℕ
find_text pattern [] = none
find_text pattern (c ∷ text) =
    let later = find_text pattern text in
    if begins pattern (c ∷ text) then some 0 else (do i ← later; some (i + 1))

-- The host and the name, of what follows the scheme.
unfoldable pub host_name : Bool → Text → Text × Text
host_name is_hdfs rest = elim (find slash rest) [
  | none ↦ (if is_hdfs then default_host else [], rest)
  | some pos ↦ (take pos rest, drop pos rest)
]

-- The constructor, once the scheme is known.
unfoldable pub with_scheme : Text → Text → Text → Uri
with_scheme uri scheme rest =
    let is_hdfs = same_text scheme hdfs in
    let parts = host_name is_hdfs rest in
    let host = if is_hdfs && (length parts.0 == 0) then default_host else parts.0 in
    record {
      scheme = scheme;
      host = host;
      name = parts.1;
      path = if is_hdfs then scheme ++ (separator ++ (host ++ parts.1)) else uri;
    }

unfoldable pub parse : Text → Uri
parse uri = elim (find_text separator uri) [
  | none ↦ with_scheme uri file uri
  | some pos ↦ with_scheme uri (take pos uri) (drop (pos + 3) uri)
]

pub data FileOpenMode : Type 0 where
  write read append binary_write binary_read binary_append : FileOpenMode

-- The mode of fopen: r, w, a, rb, wb and ab.
unfoldable pub mode_str : FileOpenMode → Text
mode_str read = 114 ∷ []
mode_str write = 119 ∷ []
mode_str append = 97 ∷ []
mode_str binary_read = 114 ∷ 98 ∷ []
mode_str binary_write = 119 ∷ 98 ∷ []
mode_str binary_append = 97 ∷ 98 ∷ []

-- Which factory made the streams of an address.
pub data Factory : Type 0 where
  local_factory hdfs_factory : Text → Factory

-- StreamFactory::GetStream, built with USE_HDFS: the factory, and the factories there are then. A
-- scheme that is neither file nor hdfs is fatal.
unfoldable pub get_factory : Uri → Register Factory → Option (Factory × Register Factory)
get_factory uri instances =
    let addr = uri.scheme ++ (separator ++ uri.host) in
    elim (get_value addr instances) [
      | some factory ↦ some (factory, instances)
      | none ↦
          if same_text uri.scheme file
          then some (local_factory uri.host, instances ++ (addr, local_factory uri.host) ∷ [])
          else if same_text uri.scheme hdfs
          then some (hdfs_factory uri.host, instances ++ (addr, hdfs_factory uri.host) ∷ [])
          else none
    ]
