-- ===== src/Bridge/Settings/Kept.antt =====
-- crates/rdesk_bridge/src/api/settings.rs and connection.rs: what a change of the configuration
-- keeps, and which identifier the device shows.
use rdesk.Prelude.{
  ℕ, ◌≡◌, ◌⊎◌, inl, inr, refl, ap, ◌∙◌, true, Option, none, some, arith, [], Text, is_empty,
  Bool-cases, Option-cases, ◌∷◌,
}
use rdesk.Common.Config.{AppConfig, Json, load, save}
use rdesk.Common.Config.Storage.{IsJson, load-save}
use rdesk.Common.Disk.{Disk, IsDisk, Result, ok, err, Failure}
use rdesk.Common.Password.{Argon2, hash_password, verify_password}
use rdesk.Bridge.Connection.{set_permanent_password}
use rdesk.Bridge.Settings.{save_settings}

-- What the `argon2` crate documents: a password is verified against its own hash.
pub record IsArgon2 (A : Argon2) : Type 0 where
  pub verify-hash :
      (password salt text : Text)
      → A.hash_with_salt password salt ≡ some text
      → (parsed : A.PasswordHash) × (A.parse_hash text ≡ some parsed)
        × (A.verify password parsed ≡ true)

empty : (text : Text) → is_empty text ≡ true → text ≡ []
empty [] e = refl
empty (c ∷ text) e = absurd (ground arith)

Result-cases {ℓ} :
    {A : Type ℓ} (r : Result A) → ((e : Failure) × (r ≡ err e)) ⊎ ((a : A) × (r ≡ ok a))
Result-cases (ok a) = inr (a, refl)
Result-cases (err e) = inl (e, refl)

-- The password that the configuration holds is the one that was set: none if it is empty, and
-- otherwise the text of a hash that it is verified against.
abbrev pub IsPassword : Argon2 → Text → Option Text → Type 0
IsPassword A password permanent =
    ((password ≡ []) × (permanent ≡ none))
    ⊎ ((text : Text) × (permanent ≡ some text) × (verify_password A password text ≡ ok true))

verify-hash_password :
    (A : Argon2) (salt password text : Text)
    → IsArgon2 A
    → hash_password A salt password ≡ ok text
    → verify_password A password text ≡ ok true
unfolding hash_password verify_password
verify-hash_password A salt password text argon e =
    elim (Option-cases (A.hash_with_salt password salt)) [
      | inl n ↦ absurd (ground arith)
      | inr (made, h) ↦
          let same : made ≡ text = ground arith in
          let (parsed, p, v) = argon.verify-hash password salt text (h ∙ ap (λ t. some t) same) in
          ground arith
    ]

module _ (D : Disk) (J : Json) (is : IsDisk D) (js : IsJson J) where
  -- If the file system and the JSON library behave as `IsDisk` and `IsJson` say: after settings
  -- were saved without an error, the configuration that is loaded is the one from before with the
  -- two addresses replaced, so that the device's identifier and the permanent password are kept.
  pub load-save_settings :
      (drawn next : ℕ) (signaling relay : Text) (fs fs' : D.FileSystem)
      → save_settings D J drawn signaling relay fs ≡ (fs', ok tt)
      → (config : AppConfig) × (between : D.FileSystem) × (load D J drawn fs ≡ (between, ok config))
        × (load D J next fs'
            ≡ (fs', ok (record config { signaling_server = signaling; relay_server = relay })))
  unfolding save_settings
  load-save_settings drawn next signaling relay fs fs' e = go (load D J drawn fs) refl
    where
      go :
          (p : D.FileSystem × Result AppConfig)
          → load D J drawn fs ≡ p
          → (config : AppConfig) × (between : D.FileSystem) × (load D J drawn fs
              ≡ (between, ok config))
            × (load D J next fs'
                ≡ (fs', ok (record config { signaling_server = signaling; relay_server = relay })))
      go (between, err x) l = absurd (ground arith)
      go (between, ok config) l =
          let changed : AppConfig = record config {
            signaling_server = signaling;
            relay_server = relay;
          } in
          let saved : save D J changed between ≡ (fs', ok tt) = ground arith in
          (config, between, l, load-save D J is js next changed between fs' saved)

  -- If the file system, the JSON library and Argon2 behave as `IsDisk`, `IsJson` and `IsArgon2` say:
  -- after a permanent password was set without an error, the configuration that is loaded is the
  -- one from before, with no password if the new one is empty, and otherwise with the text of a
  -- hash against which the new one is verified.
  pub load-set_permanent_password :
      (A : Argon2) (drawn next : ℕ) (salt password : Text) (fs fs' : D.FileSystem)
      → IsArgon2 A
      → set_permanent_password D J A drawn salt password fs ≡ (fs', ok tt)
      → (config : AppConfig) × (between : D.FileSystem) × (permanent : Option Text) × (load D J
            drawn fs
          ≡ (between, ok config))
        × (load D J next fs' ≡ (fs', ok (record config { permanent_password = permanent })))
        × IsPassword A password permanent
  unfolding set_permanent_password
  load-set_permanent_password A drawn next salt password fs fs' argon e =
      go (load D J drawn fs) refl
    where
      go :
          (p : D.FileSystem × Result AppConfig)
          → load D J drawn fs ≡ p
          → (config : AppConfig) × (between : D.FileSystem) × (permanent : Option Text) × (load D J
                drawn fs
              ≡ (between, ok config))
            × (load D J next fs' ≡ (fs', ok (record config { permanent_password = permanent })))
            × IsPassword A password permanent
      go (between, err x) l = absurd (ground arith)
      go (between, ok config) l = elim (Bool-cases (is_empty password)) [
        | inl b ↦
            let s : save D J (record config { permanent_password = none }) between ≡ (fs', ok tt) =
              ground arith in
            (
              config,
              between,
              none,
              l,
              load-save D J is js next _ between fs' s,
              inl (empty password b, refl),
            )
        | inr b ↦ elim (Result-cases (hash_password A salt password)) [
          | inl (x, h) ↦ absurd (ground arith)
          | inr (text, h) ↦
              let s : save D J (record config { permanent_password = some text }) between
                  ≡ (fs', ok tt) =
                ground arith in
              (
                config,
                between,
                some text,
                l,
                load-save D J is js next _ between fs' s,
                inr (text, refl, verify-hash_password A salt password text argon h),
              )
        ]
      ]
