-- ===== src/Util/CachedChain.antt =====
-- src/util/cached_chain.rs: where a chain of certificates is looked for. The environment and the
-- file system are parameters, and stay as they are during a search.
use csv_rs.Base.{
  ◌==◌, if◌then◌else◌, Bool, true, false, Bytes, List, [], ◌∷◌, ◌++◌, Option, some, none, ascii,
  Outcome, ok, ok_or, ◌>>=◌,
}
use csv_rs.Error.{IoError, of_kind, not_found}
use csv_rs.Certs.Chain.{Chain, decode}

-- A path, as its text.
abbrev pub PathBuf : Type 0
PathBuf = Bytes

-- The environment variable `CSV_CHAIN`, the user's cache directory, which paths exist, and what opening
-- a file and reading it gives.
pub record System : Type 0 where
  pub csv_chain : Option Bytes
  pub cache_dir : Option PathBuf
  pub exists : PathBuf → Bool
  pub open_file : PathBuf → Outcome IoError Bytes

-- Whether a separator is missing at the end.
unfoldable pub needs_separator : PathBuf → Bool
needs_separator [] = false
needs_separator (c ∷ []) = if c == 47 then false else true
needs_separator (c ∷ d ∷ cs) = needs_separator (d ∷ cs)

-- `PathBuf::push` of a relative path.
unfoldable pub push : PathBuf → Bytes → PathBuf
unfolding needs_separator
push path part = if needs_separator path then path ++ (47 ∷ part) else path ++ part

unfoldable pub append_rest : PathBuf → PathBuf
unfolding push
append_rest path = push (push path (ascii "hygon-csv")) (ascii "chain")

-- `.map(append_rest)`
unfoldable pub map_rest : Option PathBuf → Option PathBuf
unfolding append_rest
map_rest none = none
map_rest (some p) = some (append_rest p)

unfoldable pub flatten : List (Option PathBuf) → List PathBuf
flatten [] = []
flatten (none ∷ ps) = flatten ps
flatten (some p ∷ ps) = p ∷ flatten ps

unfoldable pub filter : (PathBuf → Bool) → List PathBuf → List PathBuf
filter keep [] = []
filter keep (p ∷ ps) = if keep p then p ∷ filter keep ps else filter keep ps

-- `Vec::first`
unfoldable pub first : List PathBuf → Option PathBuf
first [] = none
first (p ∷ ps) = some p

module _ (system : System) where
  unfoldable pub env_var : Option PathBuf
  env_var = system.csv_chain

  unfoldable pub home : Option PathBuf
  unfolding map_rest
  home = map_rest system.cache_dir

  unfoldable pub sys : Option PathBuf
  unfolding append_rest
  sys = if system.exists (ascii "/var/cache") then some (append_rest (ascii "/var/cache")) else none

  unfoldable pub path : List PathBuf
  unfolding flatten env_var home sys
  path = flatten (env_var ∷ home ∷ sys ∷ [])

  unfoldable pub get : Outcome IoError Chain
  unfolding filter first path
  get = do
    file_name ← ok_or (first (filter system.exists path)) (of_kind not_found)
    file ← system.open_file file_name
    (chain, rest) ← decode file
    ok chain

  -- What is read of the file at a path.
  abbrev pub read : PathBuf → Outcome IoError Chain
  read p = do file ← system.open_file p; (chain, rest) ← decode file; ok chain
