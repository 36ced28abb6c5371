-- ===== src/Common/Uri/Tests.antt =====
-- The URI "hdfs:///a", and the path "a/b".
use ddls.Prelude.{◌≡◌, refl, [], ◌∷◌}
use ddls.Common.Configure.{find, same_text}
use ddls.Common.Uri.{slash, file, hdfs, parse, find_text, begins, with_scheme, host_name}
use ddls.Common.Uri.Parts.{hdfs_uri, host_or_default, parse-hdfs_uri}

parse-hdfs_uri_example :
    (parse (hdfs_uri [] (97 ∷ [])) ≡ record {
      scheme = hdfs;
      host = host_or_default [];
      name = slash ∷ 97 ∷ [];
      path = hdfs_uri (host_or_default []) (97 ∷ []);
    })
    × (parse (parse (hdfs_uri [] (97 ∷ []))).path ≡ parse (hdfs_uri [] (97 ∷ [])))
parse-hdfs_uri_example = parse-hdfs_uri [] (97 ∷ []) tt

-- A local path keeps its text; what stands before its first slash is called the host.
local_path :
    parse (97 ∷ 47 ∷ 98 ∷ [])
    ≡ record { scheme = file; host = 97 ∷ []; name = 47 ∷ 98 ∷ []; path = 97 ∷ 47 ∷ 98 ∷ [] }
unfolding parse find_text begins with_scheme host_name find same_text
local_path = refl
