-- ===== src/Policy/PathRules.antt =====
-- `shouldExclude` of internal/osix/snapshot.go and `shouldRedact` of internal/osix/policy.go.
use smol_agent_oci_fs.Base.{
  Bytes, slash, codes, Bool, ◌||◌, ◌&&◌, List, [], ◌∷◌, has_prefix, has_suffix, contains,
  trim_prefix, any, elem,
}

-- the map `exact`
abbrev pub excluded_paths : List Bytes
excluded_paths =
    codes ".osix"
    ∷ codes ".osix-replay-policy.json"
    ∷ codes ".osix-turn-boundary"
    ∷ codes ".env"
    ∷ codes "agent/secrets"
    ∷ codes "secrets"
    ∷ codes "agent/tmp"
    ∷ codes "tmp"
    ∷ codes "agent/cache"
    ∷ codes "cache"
    ∷ []

abbrev pub excluded_prefixes : List Bytes
excluded_prefixes =
    codes ".osix/"
    ∷ codes "agent/secrets/"
    ∷ codes "secrets/"
    ∷ codes "agent/tmp/"
    ∷ codes "tmp/"
    ∷ codes "agent/cache/"
    ∷ codes "cache/"
    ∷ []

unfoldable pub should_exclude : Bytes → Bool
unfolding elem any has_prefix trim_prefix contains has_suffix
should_exclude path =
    let rel = trim_prefix path (slash ∷ []) in
    elem rel excluded_paths
    || any (has_prefix rel) excluded_prefixes
    || contains rel (codes "/node_modules/.cache/")
    || contains rel (codes "/__pycache__/")
    || has_suffix rel (codes "/.env")
    || has_suffix rel (codes "/id_rsa")
    || has_suffix rel (codes "/id_ed25519")

unfoldable pub should_redact : Bytes → Bool
unfolding has_prefix has_suffix
should_redact path =
    has_prefix path (codes "agent/logs/")
    && (has_suffix path (codes ".jsonl")
        || has_suffix path (codes ".log")
        || has_suffix path (codes ".json"))
