-- ===== src/Compact/Kept.antt =====
-- `pruneLocalSnapshots` of internal/osix/compact.go removes no blob that is reachable.
use smol_agent_oci_fs.Base.{
  Bytes, codes, Bool, true, false, not, ◌&&◌, if◌then◌else◌, List, [], ◌∷◌, ◌++◌, eqb, eqb→eq,
  eqb_refl, elem, has_prefix, has_prefix_split, trim_prefix-append, lookup, keep_keys,
  lookup-keep_keys, Option, none, some, ◌≡◌, refl, arith, ap, ◌∙◌, sym, All, Bool-cases, inl, inr,
}
use smol_agent_oci_fs.Store.Refs.{is_digest}
use smol_agent_oci_fs.Store.Chain.{Manifest, AgentConfig, Blobs, hex_of, read_blob}
use smol_agent_oci_fs.Store.Chain.Loading.{and_then-some}
use smol_agent_oci_fs.Compact.{prune_blobs}

-- The text of a digest, of which `digestHex` cuts the name of the algorithm.
abbrev pub NamesAlgorithm : Bytes → Type 0
NamesAlgorithm d = has_prefix d (codes "sha256:") ≡ true

hex_of-append : (s : Bytes) → hex_of (codes "sha256:" ++ s) ≡ s
unfolding hex_of
hex_of-append s = trim_prefix-append (codes "sha256:") s

hex_of_injective : (d s : Bytes) → NamesAlgorithm d → hex_of d ≡ s → d ≡ codes "sha256:" ++ s
hex_of_injective d s h e =
    let (r, split) = has_prefix_split d (codes "sha256:") h in
    split
    ∙ ap (λ (z : Bytes). codes "sha256:" ++ z) (sym (hex_of-append r) ∙ ap hex_of (sym split) ∙ e)

module _ (sha256 : Bytes → Bytes) (parse_manifest : Bytes → Option Manifest)
    (parse_config : Bytes → Option AgentConfig) where
  abbrev pub read : Blobs → Bytes → Option Bytes
  read blobs digest = read_blob sha256 parse_manifest parse_config blobs digest

  -- A blob that can be read has the digest of its content.
  read_names :
      (blobs : Blobs) (x content : Bytes)
      → read blobs x ≡ some content
      → codes "sha256:" ++ sha256 content ≡ x
  unfolding read_blob
  read_names blobs x content h = elim (Bool-cases (is_digest x)) [
    | inr bad ↦ absurd (ground (arith, bad, h))
    | inl good ↦
        let (file, there, kept) =
          and_then-some (lookup (hex_of x) blobs)
            (λ file. if eqb (codes "sha256:" ++ sha256 file) x then some file else none) content
            (ground (arith, good, h)) in
        elim (Bool-cases (eqb (codes "sha256:" ++ sha256 file) x)) [
          | inr other ↦ absurd (ground (arith, other, kept))
          | inl same ↦
              let content_file : file ≡ content = ground (arith, same, kept) in
              ap (λ z. codes "sha256:" ++ sha256 z) (sym content_file)
              ∙ eqb→eq (codes "sha256:" ++ sha256 file) x same
        ]
  ]

  read_same :
      (b b' : Blobs) (x : Bytes) → lookup (hex_of x) b' ≡ lookup (hex_of x) b → read b' x ≡ read b x
  unfolding read_blob
  read_same b b' x h = ground (arith, h)

  removed_other :
      (blobs : Blobs) (x d content : Bytes)
      → read blobs x ≡ some content
      → NamesAlgorithm d
      → eqb d x ≡ false
      → read (keep_keys (λ name. not (eqb name (hex_of d))) blobs) x ≡ some content
  removed_other blobs x d content h named n =
      let names = read_names blobs x content h in
      let hex_x : hex_of x ≡ sha256 content =
        ap hex_of (sym names) ∙ hex_of-append (sha256 content) in
      let apart : eqb (hex_of x) (hex_of d) ≡ false =
        elim (Bool-cases (eqb (hex_of x) (hex_of d))) [
          | inr other ↦ other
          | inl y ↦
              let same : d ≡ x =
                hex_of_injective d (sha256 content) named
                  (sym (eqb→eq (hex_of x) (hex_of d) y) ∙ hex_x)
                ∙ names in
              absurd (ground (arith, n, ap (λ z. eqb z x) same, eqb_refl x))
        ] in
      read_same blobs (keep_keys (λ name. not (eqb name (hex_of d))) blobs) x
        (lookup-keep_keys (λ name. not (eqb name (hex_of d))) (hex_of x) blobs ∙ rw apart refl)
      ∙ h

  module _ (can_remove : Bytes → Bool) (order : List Bytes → List Bytes) where
    pub prune_blobs_keeps :
        (reachable ds : List Bytes) (blobs : Blobs) (x content : Bytes)
        → All NamesAlgorithm ds
        → elem x reachable ≡ true
        → read blobs x ≡ some content
        → read
            (prune_blobs sha256 parse_manifest parse_config can_remove order reachable ds blobs).0
            x
          ≡ some content
    unfolding prune_blobs
    prune_blobs_keeps reachable [] blobs x content named e h = h
    prune_blobs_keeps reachable (d ∷ ds) blobs x content named e h =
        elim (Bool-cases (elem d reachable)) [
          | inl y ↦ rw (y, prune_blobs) (prune_blobs_keeps reachable ds blobs x content named.1 e h)
          | inr n ↦ elim (Bool-cases (is_digest d && can_remove (hex_of d))) [
            | inr stop ↦ rw (n, stop, prune_blobs) h
            | inl go ↦
                let apart : eqb d x ≡ false = elim (Bool-cases (eqb d x)) [
                  | inr other ↦ other
                  | inl y ↦ absurd (ground (arith, n, e, ap (λ z. elem z reachable) (eqb→eq d x y)))
                ] in
                rw (n, go, prune_blobs)
                  (prune_blobs_keeps reachable ds
                    (keep_keys (λ name. not (eqb name (hex_of d))) blobs) x content named.1 e
                    (removed_other blobs x d content h named.0 apart))
          ]
        ]
