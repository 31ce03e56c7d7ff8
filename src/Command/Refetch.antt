-- ===== src/Command/Refetch.antt =====
-- The hash of a schema on the disk.
use poe_acp_relay.Base.{
  ◌≡◌, refl, ap, ◌∙◌, eq_refl, inl, inr, ok, String, true, false, Option, [], ◌∷◌, ◌==◌, Bool-cases,
}
use poe_acp_relay.Base.Paths.{join}
use poe_acp_relay.Poeproto.Controls.{ParameterControls}
use poe_acp_relay.Command.{
  Push, PostResponse, schema_hash, endpoint, is_taken, maybe_refetch_settings,
}

module _ {S : Type 0} (ops : Push S) (digest : ParameterControls → String)
    (state_dir bot key : String) (controls : Option ParameterControls) (base : String) (s : S) where
  known :
      (ops.read_file (join (state_dir ∷ "last_schema_hash" ∷ [])) s == schema_hash digest controls)
        ≡ true
      → maybe_refetch_settings ops digest state_dir bot key controls base s ≡ s
  unfolding maybe_refetch_settings
  known same = rw same refl

  pushed :
      (resp : PostResponse)
      → (ops.read_file (join (state_dir ∷ "last_schema_hash" ∷ [])) s
          == schema_hash digest controls)
        ≡ false
      → (ops.post (endpoint ops base bot key) s).0 ≡ ok resp
      → is_taken ops resp ≡ true
      → maybe_refetch_settings ops digest state_dir bot key controls base s
        ≡ ops.write_file
            (join (state_dir ∷ "last_schema_hash" ∷ []))
            (schema_hash digest controls)
            (ops.post (endpoint ops base bot key) s).1
  unfolding maybe_refetch_settings endpoint is_taken schema_hash
  pushed resp new answered taken = rw (new, answered, taken) refl

-- Once Poe has taken the controls, pushing the same ones again asks Poe nothing and changes nothing,
-- where a file that was written reads back.
pub maybe_refetch_settings_again :
    {S : Type 0} (ops : Push S) (digest : ParameterControls → String) (state_dir bot key : String)
    (controls : Option ParameterControls) (base : String) (s : S) (resp : PostResponse)
    → ((path text : String) (s' : S) → ops.read_file path (ops.write_file path text s') ≡ text)
    → (ops.post (endpoint ops base bot key) s).0 ≡ ok resp
    → is_taken ops resp ≡ true
    → maybe_refetch_settings ops digest state_dir bot key controls base
        (maybe_refetch_settings ops digest state_dir bot key controls base s)
      ≡ maybe_refetch_settings ops digest state_dir bot key controls base s
maybe_refetch_settings_again ops digest state_dir bot key controls base s resp reads answered
      taken =
    let file = join (state_dir ∷ "last_schema_hash" ∷ []) in
    let hash = schema_hash digest controls in
    elim (Bool-cases (ops.read_file file s == hash)) [
      | inl same ↦
          ap (maybe_refetch_settings ops digest state_dir bot key controls base)
            (known ops digest state_dir bot key controls base s same)
      | inr new ↦
          let e = pushed ops digest state_dir bot key controls base s resp new answered taken in
          known ops digest state_dir bot key controls base
            (maybe_refetch_settings ops digest state_dir bot key controls base s)
            (ap (λ t. ops.read_file file t == hash) e
              ∙ (ap (λ t. t == hash) (reads file hash (ops.post (endpoint ops base bot key) s).1)
                  ∙ eq_refl hash))
    ]
