-- ===== src/Common/Uri/Parts.antt =====
-- The parts of an hdfs URI, and of a path on the local disk.
use ddls.Prelude.{
  ◌≡◌, ◌≢◌, refl, sym, ap, ◌∙◌, [], ◌∷◌, ◌++◌, some, Bool, true, false, ◌==◌, ==_ne, length,
  take-append, drop-append, All, arith,
}
use ddls.Common.Configure.{Text, same_text, find}
use ddls.Common.Uri.{
  Uri, slash, separator, hdfs, default_host, begins, find_text, host_name, with_scheme, parse,
}

-- A host has no slash.
abbrev pub IsHost : Text → Type 0
IsHost host = All (λ c. c ≢ slash) host

find-append :
    (host rest : Text) → IsHost host → find slash (host ++ (slash ∷ rest)) ≡ some (length host)
unfolding find
find-append [] rest all = refl
find-append (c ∷ host) rest all =
    rw (==_ne c slash all.0, find-append host rest all.1) (ap some (omega arith))

host_name-append :
    (is_hdfs : Bool) (host rest : Text)
    → IsHost host
    → host_name is_hdfs (host ++ (slash ∷ rest)) ≡ (host, slash ∷ rest)
unfolding host_name
host_name-append is_hdfs host rest all =
    rw
      (
        host_name,
        find-append host rest all,
        take-append host (slash ∷ rest),
        drop-append host (slash ∷ rest),
      )
      refl

-- The host that an hdfs URI stands for.
unfoldable pub host_or_default : Text → Text
host_or_default [] = default_host
host_or_default (c ∷ host) = c ∷ host

host_or_default-IsHost : (host : Text) → IsHost host → IsHost (host_or_default host)
unfolding host_or_default
host_or_default-IsHost [] all = (
  omega arith,
  (omega arith, (omega arith, (omega arith, (omega arith, (omega arith, (omega arith, tt)))))),
)
host_or_default-IsHost (c ∷ host) all = all

default_twice : (host : Text) → host_or_default (host_or_default host) ≡ host_or_default host
unfolding host_or_default
default_twice [] = refl
default_twice (c ∷ host) = refl

abbrev pub hdfs_uri : Text → Text → Text
hdfs_uri host rest = hdfs ++ (separator ++ (host ++ (slash ∷ rest)))

parse-scheme :
    (text : Text)
    → parse (hdfs ++ (separator ++ text)) ≡ with_scheme (hdfs ++ (separator ++ text)) hdfs text
unfolding parse find_text begins
parse-scheme text = refl

parse-parts :
    (host rest : Text)
    → IsHost host
    → parse (hdfs_uri host rest) ≡ record {
      scheme = hdfs;
      host = host_or_default host;
      name = slash ∷ rest;
      path = hdfs_uri (host_or_default host) rest;
    }
unfolding with_scheme same_text host_or_default host_name find
parse-parts [] rest all = parse-scheme (slash ∷ rest)
parse-parts (c ∷ host) rest all =
    let some_host : (length (c ∷ host) == 0) ≡ false = ground arith in
    parse-scheme ((c ∷ host) ++ (slash ∷ rest))
    ∙ rw (with_scheme, host_name-append true (c ∷ host) rest all, some_host) refl

-- For a host without a slash, perhaps empty, and a rest that follows a slash: an hdfs URI has these
-- parts, with the host named default where it is empty, and its path, read as a URI, has the same parts
-- and the same path.
pub parse-hdfs_uri :
    (host rest : Text)
    → IsHost host
    → (parse (hdfs_uri host rest) ≡ record {
      scheme = hdfs;
      host = host_or_default host;
      name = slash ∷ rest;
      path = hdfs_uri (host_or_default host) rest;
    })
      × (parse (parse (hdfs_uri host rest)).path ≡ parse (hdfs_uri host rest))
parse-hdfs_uri host rest all =
    let first = parse-parts host rest all in
    let again = parse-parts (host_or_default host) rest (host_or_default-IsHost host all) in
    (
      first,
      ap (λ u. parse (Uri.path u)) first
          ∙ again
          ∙ ap
              (λ h. record { scheme = hdfs; host = h; name = slash ∷ rest; path = hdfs_uri h rest })
              (default_twice host)
          ∙ sym first,
    )
