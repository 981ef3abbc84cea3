-- ===== src/Custodian/Laws.antt =====
-- The custodian's routes: what unlocks a tenant, and what stays as it is.
use hyperswitch_card_vault.Common.{
  ◌≡◌, ◌≢◌, ◌⊎◌, ◌↔◌, ◌∙◌, inl, inr, refl, sym, ap, true, List, [], ◌∷◌, Option, none, some, Text,
  same_text_refl, same_text_other, ok, err, Bool-cases, Option-cases, Result-cases, arith,
}
use hyperswitch_card_vault.Error.Types.{ApiError}
use hyperswitch_card_vault.Storage.Rows.{Bytes}
use hyperswitch_card_vault.Custodian.{
  CustodianKeyState, GlobalAppState, get_app_state_of_tenant, is_known_tenant,
  is_custodian_unlocked, set_app_state, tenant_state_resolver, tenant_id_extractor, key1, key2,
  aes_decrypt_custodian_key, unlock, decrypt_with, decrypt, Request, header, handle_for, handle,
  run, insert, and_modify,
}

insert-other :
    {A : Type 0} (k t : Text) (a : A) (m : Text → Option A) → k ≢ t → insert k a m t ≡ m t
insert-other k t a m ne = rw (same_text_other k t ne)

some-ne-none : {A : Type 0} (a : A) → some a ≢ none
some-ne-none a h = cc

module _ {App : Type 0} where
  -- A request of the data routes whose header names a tenant gets an application state exactly where
  -- the tenant is known and unlocked, and then that tenant's.
  pub resolver_iff :
      (t : Text) (state : GlobalAppState App) (app : App)
      → (tenant_state_resolver (some t) state ≡ ok app)
        ↔ ((state.known_tenants t ≡ true) × (state.tenants_app_state t ≡ some app))
  unfolding tenant_state_resolver is_known_tenant get_app_state_of_tenant
  resolver_iff t state app = ground arith

  set_app_state_self :
      (t : Text) (app : App) (state : GlobalAppState App)
      → (set_app_state t app state).tenants_app_state t ≡ some app
  unfolding set_app_state
  set_app_state_self t app state = rw (same_text_refl t)

  set_app_state_known :
      (t : Text) (app : App) (state : GlobalAppState App)
      → (set_app_state t app state).known_tenants t ≡ state.known_tenants t
  unfolding set_app_state
  set_app_state_known t app state = refl

  -- The parts of a tenant.
  abbrev pub SameTenant : Text → GlobalAppState App → GlobalAppState App → Type 0
  SameTenant t s s' =
      (s'.tenants_app_state t ≡ s.tenants_app_state t)
      × (s'.tenants_key_state t ≡ s.tenants_key_state t)
      × (s'.known_tenants t ≡ s.known_tenants t)

  modified-other :
      (k t : Text) (f : CustodianKeyState → CustodianKeyState) (state : GlobalAppState App)
      (o : Option CustodianKeyState)
      → k ≢ t
      → SameTenant t state (elim o [
        | none ↦ state
        | some keys ↦ record state { tenants_key_state = insert k (f keys) state.tenants_key_state }
      ])
  modified-other k t f state none ne = (refl, refl, refl)
  modified-other k t f state (some keys) ne =
      (refl, insert-other k t (f keys) state.tenants_key_state ne, refl)

  and_modify-other :
      (k t : Text) (f : CustodianKeyState → CustodianKeyState) (state : GlobalAppState App)
      → k ≢ t
      → SameTenant t state (and_modify k f state)
  and_modify-other k t f state ne = modified-other k t f state (state.tenants_key_state k) ne

  module _ (hex_decode : Text → Option Bytes) (aes_decrypt : Text → Bytes → Option Bytes)
      (tenant_app_state_new : Text → Bytes → Option App) where
    unlock-other :
        (k t a b : Text) (state : GlobalAppState App)
        → k ≢ t
        → SameTenant t state (unlock hex_decode aes_decrypt tenant_app_state_new k a b state).1
    unfolding unlock set_app_state
    unlock-other k t a b state ne =
        elim (Result-cases
          (aes_decrypt_custodian_key hex_decode aes_decrypt tenant_app_state_new k a b)) [
            | inr (e, failed) ↦ rw (unlock, failed) (refl, refl, refl)
            | inl (master_key, opened) ↦ elim (Option-cases (tenant_app_state_new k master_key)) [
              | inl failed ↦ rw (unlock, opened, failed) (refl, refl, refl)
              | inr (app, made) ↦
                  rw (unlock, opened, made)
                    (insert-other k t app state.tenants_app_state ne, refl, refl)
            ]
          ]

    decrypt_with-other :
        (k t : Text) (a b : Option Text) (state : GlobalAppState App)
        → k ≢ t
        → SameTenant t state
            (decrypt_with hex_decode aes_decrypt tenant_app_state_new k a b state).1
    unfolding decrypt_with
    decrypt_with-other k t (some a) (some b) state ne = unlock-other k t a b state ne
    decrypt_with-other k t (some a) none state ne = and_modify-other k t _ state ne
    decrypt_with-other k t none b state ne = and_modify-other k t _ state ne

    handle_for-other :
        (request : Request) (k t : Text) (state : GlobalAppState App)
        → k ≢ t
        → SameTenant t state
            (handle_for hex_decode aes_decrypt tenant_app_state_new request k state).1
    unfolding handle_for key1 key2 decrypt
    handle_for-other (Request.post_key1 h key) k t state ne = and_modify-other k t _ state ne
    handle_for-other (Request.post_key2 h key) k t state ne = and_modify-other k t _ state ne
    handle_for-other (Request.post_decrypt h) k t state ne =
        elim (Option-cases (state.tenants_key_state k)) [
          | inl absent ↦ rw (decrypt, absent) (refl, refl, refl)
          | inr (keys, there) ↦
              rw (decrypt, there) (decrypt_with-other k t keys.key1 keys.key2 state ne)
        ]

    -- The extractor: an error, or the tenant of the header, known and not unlocked.
    extractor-cases :
        (h : Option Text) (state : GlobalAppState App)
        → ((e : ApiError) × (tenant_id_extractor h state ≡ err e))
          ⊎ ((k : Text) × (h ≡ some k)
              × (tenant_id_extractor h state ≡ ok k)
              × (state.tenants_app_state k ≡ none))
    unfolding tenant_id_extractor is_known_tenant is_custodian_unlocked
    extractor-cases none state = inl (_, refl)
    extractor-cases (some k) state = elim (Bool-cases (state.known_tenants k)) [
      | inr unknown ↦ inl (
        ApiError.tenant_error "Invalid x-tenant-id",
        rw (tenant_id_extractor, is_known_tenant, unknown),
      )
      | inl known ↦ elim (Option-cases (state.tenants_app_state k)) [
        | inl locked ↦ inr (
          k,
          refl,
          rw (tenant_id_extractor, is_known_tenant, known, is_custodian_unlocked, locked),
          locked,
        )
        | inr (app, unlocked) ↦ inl (
          ApiError.custodian_unlocked,
          rw (tenant_id_extractor, is_known_tenant, known, is_custodian_unlocked, unlocked),
        )
      ]
    ]

    -- A request to the custodian's routes that does not name a tenant leaves the tenant as it is: its
    -- application state, its keys and whether it is known.
    pub handle-other :
        (request : Request) (t : Text) (state : GlobalAppState App)
        → header request ≢ some t
        → SameTenant t state (handle hex_decode aes_decrypt tenant_app_state_new request state).1
    unfolding handle
    handle-other request t state ne = elim (extractor-cases (header request) state) [
      | inl (e, refused) ↦ rw (handle, refused) (refl, refl, refl)
      | inr (k, named, taken, locked) ↦
          rw (handle, taken)
            (handle_for-other request k t state (λ same. ne (named ∙ ap some same)))
    ]

    -- A request leaves a tenant that is unlocked as it is, whether it names it or not.
    handle-unlocked :
        (request : Request) (t : Text) (app : App) (state : GlobalAppState App)
        → state.tenants_app_state t ≡ some app
        → SameTenant t state (handle hex_decode aes_decrypt tenant_app_state_new request state).1
    unfolding handle
    handle-unlocked request t app state unlocked = elim (extractor-cases (header request) state) [
      | inl (e, refused) ↦ rw (handle, refused) (refl, refl, refl)
      | inr (k, named, taken, locked) ↦
          rw (handle, taken)
            (handle_for-other request k t state (λ same.
              absurd
                (some-ne-none app (sym unlocked ∙ ap state.tenants_app_state (sym same) ∙ locked))))
    ]

    -- After a tenant is unlocked, no sequence of requests to the custodian's routes changes its
    -- application state or its keys, or locks it.
    pub run-unlocked :
        (requests : List Request) (t : Text) (app : App) (state : GlobalAppState App)
        → state.tenants_app_state t ≡ some app
        → SameTenant t state (run hex_decode aes_decrypt tenant_app_state_new requests state)
    unfolding run
    run-unlocked [] t app state unlocked = (refl, refl, refl)
    run-unlocked (request ∷ requests) t app state unlocked =
        let next = (handle hex_decode aes_decrypt tenant_app_state_new request state).1 in
        let (a, k, n) = handle-unlocked request t app state unlocked in
        let (a', k', n') = run-unlocked requests t app next (a ∙ unlocked) in
        (a' ∙ a, k' ∙ k, n' ∙ n)

    extractor-locked :
        (t : Text) (state : GlobalAppState App)
        → state.known_tenants t ≡ true
        → state.tenants_app_state t ≡ none
        → tenant_id_extractor (some t) state ≡ ok t
    unfolding tenant_id_extractor is_known_tenant is_custodian_unlocked
    extractor-locked t state known locked =
        rw (tenant_id_extractor, is_known_tenant, known, is_custodian_unlocked, locked)

    module _ (t : Text) (state : GlobalAppState App) (known : state.known_tenants t ≡ true)
        (locked : state.tenants_app_state t ≡ none) where
      -- A request to decrypt for a known, locked tenant that has both keys, of which the decryption of
      -- the master key fails, is that failure, and the keys are not reset: the state stays as it is.
      pub decrypt_failure_keeps_keys :
          (a b : Text) (e : ApiError)
          → state.tenants_key_state t ≡ some (record { key1 = some a; key2 = some b })
          → aes_decrypt_custodian_key hex_decode aes_decrypt tenant_app_state_new t a b ≡ err e
          → handle hex_decode aes_decrypt tenant_app_state_new (Request.post_decrypt (some t)) state
            ≡ (err e, state)
      unfolding handle header handle_for decrypt decrypt_with unlock
      decrypt_failure_keeps_keys a b e there failed = rw (
        handle,
        header,
        extractor-locked t state known locked,
        handle_for,
        decrypt,
        there,
        decrypt_with,
        unlock,
        failed,
      )

      -- A request to decrypt for a known, locked tenant that has both keys, which open the master key
      -- to one that an application state is made of, succeeds, and the data routes then get that state
      -- for the tenant.
      pub decrypt_unlocks :
          (a b : Text) (master_key : Bytes) (app : App)
          → state.tenants_key_state t ≡ some (record { key1 = some a; key2 = some b })
          → aes_decrypt_custodian_key hex_decode aes_decrypt tenant_app_state_new t a b
            ≡ ok master_key
          → tenant_app_state_new t master_key ≡ some app
          → ((handle hex_decode aes_decrypt tenant_app_state_new
                (Request.post_decrypt (some t))
                state).0
              ≡ ok tt)
            × (tenant_state_resolver
                  (some t)
                  (handle hex_decode aes_decrypt tenant_app_state_new
                    (Request.post_decrypt (some t))
                    state).1
                ≡ ok app)
      unfolding handle header handle_for decrypt decrypt_with unlock
      decrypt_unlocks a b master_key app there opened made =
          let runs : handle hex_decode aes_decrypt tenant_app_state_new
                (Request.post_decrypt (some t)) state
              ≡ (ok tt, set_app_state t app state) =
            rw (
              handle,
              header,
              extractor-locked t state known locked,
              handle_for,
              decrypt,
              there,
              decrypt_with,
              unlock,
              opened,
              made,
            ) in
          let now : (set_app_state t app state).tenants_app_state t ≡ some app =
            set_app_state_self t app state in
          (
            ap (λ r. r.0) runs,
            ap (λ r. tenant_state_resolver (some t) r.1) runs
                ∙ (resolver_iff t (set_app_state t app state) app).1
                    (set_app_state_known t app state ∙ known, now),
          )
