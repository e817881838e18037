-- ===== src/Naming/Bounds.antt =====
-- The lengths of the bounded names.
use docker_jenkins_orchestra.Prelude.{
  ℕ, zero, suc, ◌+◌, ◌-◌, ◌≤◌, ◌≡◌, inl, inr, some, List, [], ◌∷◌, ◌++◌, map, arith, leb, leb_iff,
  nat_eq, string_eq, Bool-cases, option_eq, pair_eq, length, take, length-append, length-drop,
}
use docker_jenkins_orchestra.Text.{codes}
use docker_jenkins_orchestra.Naming.{
  identity_text, named, shorten, bounded_resource_name, lower, volume_identity_name,
  managed_volume_name, max_docker_resource_name_length,
}

length-take_le {ℓ} : {A : Type ℓ} (n : ℕ) (xs : List A) → length (take n xs) ≤ n
length-take_le zero xs = omega arith
length-take_le (suc n) [] = omega arith
length-take_le (suc n) (x ∷ xs) = omega (arith, length-take_le n xs)

module _ (hexdigest : List ℕ → List ℕ) (full : (s : List ℕ) → length (hexdigest s) ≡ 64) where
  length-shorten :
      (max_length : ℕ) (raw : List ℕ) → length (shorten hexdigest max_length raw) ≤ max_length
  unfolding shorten
  length-shorten max_length raw =
      let digest = take 10 (hexdigest raw) in
      let name = take (max_length - length digest - 1) raw ++ (b'-' ∷ digest) in
      elim (Bool-cases (leb (length raw) max_length)) [
        | inl fits ↦ rw fits (ground arith)
        | inr long ↦ elim (Bool-cases (leb max_length (length digest + 1))) [
          | inl tiny ↦ rw (long, tiny) (length-take_le max_length digest)
          | inr roomy ↦
              rw (long, roomy)
                (ground (
                  arith,
                  length-drop (length name - max_length) name,
                  length-append (take (max_length - length digest - 1) raw) (b'-' ∷ digest),
                  length-take_le (max_length - length digest - 1) raw,
                ))
        ]
      ]

  shorten_short :
      (max_length : ℕ) (raw : List ℕ)
      → length raw ≤ max_length
      → shorten hexdigest max_length raw ≡ raw
  unfolding shorten
  shorten_short max_length raw fits = rw ((leb_iff (length raw) max_length).1 fits)

  -- With digests of 64 characters, an accepted name of a prefix and a suffix is no longer than the
  -- limit, and one that fits the limit is kept whole.
  pub bounded_resource_name_fits :
      (prefix suffix : List ℕ) (max_length : ℕ) (n : List ℕ)
      → bounded_resource_name hexdigest prefix (some suffix) max_length ≡ named n
      → (length n ≤ max_length)
        × (length prefix + 1 + length suffix ≤ max_length → n ≡ prefix ++ (b'-' ∷ suffix))
  unfolding bounded_resource_name
  bounded_resource_name_fits [] suffix max_length n h = cc
  bounded_resource_name_fits (p ∷ ps) [] max_length n h = cc
  bounded_resource_name_fits (p ∷ ps) (s ∷ ss) max_length n h =
      let raw = (p ∷ ps) ++ (b'-' ∷ (s ∷ ss)) in
      let made : n ≡ shorten hexdigest max_length raw = ground arith in
      rw made (
        length-shorten max_length raw,
        λ fits.
            shorten_short max_length raw (omega (arith, length-append (p ∷ ps) (b'-' ∷ (s ∷ ss)))),
      )

  length-volume_identity_name :
      (kind first second : List ℕ)
      → length (volume_identity_name hexdigest kind first second) ≤ max_docker_resource_name_length
  unfolding volume_identity_name
  length-volume_identity_name kind first second =
      let digest = take 32 (hexdigest (identity_text first second)) in
      let readable = map lower (kind ++ (b'-' ∷ (first ++ (b'-' ∷ second)))) in
      omega (
        arith,
        length-append (take (63 - length digest - 1) readable) (b'-' ∷ digest),
        length-take_le (63 - length digest - 1) readable,
        length-take_le 32 (hexdigest (identity_text first second)),
      )

  -- With digests of 64 characters, the name of an accepted managed volume has at most 63
  -- characters, the limit on Docker's names.
  pub managed_volume_name_fits :
      (namespace alias n : List ℕ)
      → managed_volume_name hexdigest namespace alias ≡ named n
      → length n ≤ 63
  unfolding managed_volume_name
  managed_volume_name_fits namespace alias n h =
      let made : n ≡ volume_identity_name hexdigest (codes "vol-v1") namespace alias =
        ground arith in
      rw made (length-volume_identity_name (codes "vol-v1") namespace alias)
