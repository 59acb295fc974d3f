-- ===== src/Tests/Caches.antt =====
-- The search for a chain, in a system where the environment names a file that is not there.
use csv_rs.Base.{◌≡◌, refl, some, ascii, err, bytes_eq}
use csv_rs.Error.{of_kind, not_found}
use csv_rs.Util.CachedChain.{System, needs_separator, get}
use csv_rs.Util.CacheOrder.{attempt, some_path, get-order}

-- The cache directory of the system exists, and nothing in it.
abbrev system : System
system = record {
  csv_chain = some (ascii "/tmp/chain");
  cache_dir = some (ascii "/home/user/.cache");
  exists = λ p. bytes_eq p (ascii "/var/cache");
  open_file = λ p. err (of_kind not_found);
}

get-order_example :
    get system
    ≡ attempt system (some (ascii "/tmp/chain")) (
        attempt system
          (some (ascii "/home/user/.cache/hygon-csv/chain"))
          (attempt system (some (ascii "/var/cache/hygon-csv/chain")) (err (of_kind not_found))))
unfolding needs_separator
get-order_example = get-order system (some_path refl)
