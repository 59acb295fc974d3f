-- ===== src/Util/CacheOrder.antt =====
-- src/util/cached_chain.rs: the order of the search.
use csv_rs.Base.{
  ℕ, ◌≡◌, refl, ap, ◌∙◌, if◌then◌else◌, Bool-cases, inl, inr, true, Bytes, List, [], ◌∷◌, ◌++◌,
  append_assoc, Option, some, none, ascii, Outcome, ok, err, ok_or, ◌>>=◌,
}
use csv_rs.Error.{IoError, of_kind, not_found}
use csv_rs.Certs.Chain.{Chain, decode}
use csv_rs.Util.CachedChain.{
  PathBuf, System, needs_separator, push, append_rest, map_rest, flatten, filter, first, env_var,
  home, sys, path, get,
}

-- A text that ends in a letter wants a separator behind it, whatever stands in front.
needs_separator-append :
    (d : Bytes) (c : ℕ) (cs : Bytes)
    → needs_separator (c ∷ cs) ≡ true
    → needs_separator (d ++ (c ∷ cs)) ≡ true
unfolding needs_separator
needs_separator-append [] c cs h = h
needs_separator-append (x ∷ []) c cs h = h
needs_separator-append (x ∷ y ∷ d) c cs h = needs_separator-append (y ∷ d) c cs h

append_rest-plain :
    (d : PathBuf) → needs_separator d ≡ true → append_rest d ≡ d ++ ascii "/hygon-csv/chain"
unfolding append_rest push needs_separator
append_rest-plain d open_end =
    rw (open_end, needs_separator-append d 47 (ascii "hygon-csv") refl)
      (append_assoc d (ascii "/hygon-csv") (ascii "/chain"))

-- A directory, if any, without a separator at its end.
pub data IsOpenEnded : Option PathBuf → Type 0 where
  no_path : IsOpenEnded none
  some_path : {d : PathBuf} → needs_separator d ≡ true → IsOpenEnded (some d)

module _ (system : System) where
  -- What is read of the file at a path.
  abbrev pub read : PathBuf → Outcome IoError Chain
  read p = do file ← system.open_file p; (chain, rest) ← decode file; ok chain

  -- The file at a path, if there is a path and a file, and what else is to be tried.
  abbrev pub attempt : Option PathBuf → Outcome IoError Chain → Outcome IoError Chain
  attempt none other_way = other_way
  attempt (some p) other_way = if system.exists p then read p else other_way

  abbrev pub in_directory : Option PathBuf → Option PathBuf
  in_directory none = none
  in_directory (some d) = some (d ++ ascii "/hygon-csv/chain")

  -- What is left of the search, behind the candidates that were passed over.
  abbrev rest_of : List (Option PathBuf) → Outcome IoError Chain
  rest_of os = do
    file_name ← ok_or (first (filter system.exists (flatten os))) (of_kind not_found)
    read file_name

  rest_of-attempt :
      (o : Option PathBuf) (os : List (Option PathBuf)) → rest_of (o ∷ os) ≡ attempt o (rest_of os)
  unfolding filter flatten first
  rest_of-attempt none os = refl
  rest_of-attempt (some p) os = elim (Bool-cases (system.exists p)) [
    | inl there ↦ rw (there)
    | inr absent ↦ rw (absent)
  ]

  home-in_directory : (dir : Option PathBuf) → IsOpenEnded dir → map_rest dir ≡ in_directory dir
  unfolding map_rest
  home-in_directory none no_path = refl
  home-in_directory (some d) (some_path open_end) = ap Option.some (append_rest-plain d open_end)

  sys-eq : sys system ≡ (
      if system.exists (ascii "/var/cache")
      then some (ascii "/var/cache/hygon-csv/chain")
      else none)
  unfolding sys append_rest push needs_separator
  sys-eq = refl

  -- Where the user's cache directory, if there is one, has no separator at its end: the chain is read from
  -- the path in `CSV_CHAIN`, if that exists; else from /hygon-csv/chain in the cache directory, if that
  -- exists; else from /var/cache/hygon-csv/chain, if that and /var/cache exist; and else the error says
  -- that nothing was found.
  pub get-order :
      IsOpenEnded system.cache_dir
      → get system
        ≡ attempt system.csv_chain (
            attempt (in_directory system.cache_dir) (
              attempt
                (if system.exists (ascii "/var/cache")
                  then some (ascii "/var/cache/hygon-csv/chain")
                  else none)
                (err (of_kind not_found))))
  unfolding get path env_var home flatten filter first
  get-order open_ended =
      rest_of-attempt system.csv_chain (map_rest system.cache_dir ∷ sys system ∷ [])
      ∙ ap (attempt system.csv_chain) (
          rest_of-attempt (map_rest system.cache_dir) (sys system ∷ [])
          ∙ ap (λ o. attempt o (rest_of (sys system ∷ [])))
              (home-in_directory system.cache_dir open_ended)
          ∙ ap (attempt (in_directory system.cache_dir)) (
              rest_of-attempt (sys system) []
              ∙ ap (λ o. attempt o (err (of_kind not_found))) sys-eq))
