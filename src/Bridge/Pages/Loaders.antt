-- ===== src/Bridge/Pages/Loaders.antt =====
-- pkg/bridge/events.go: the loader that a navigation is told under.
use foxbridge.Common.{
  ℕ, String, ◌≡◌, refl, sym, ◌∙◌, subst⁻¹, inl, inr, Bool, false, not, ◌&&◌, [], some, string_key,
  nat_key, ◌==◌, Bool-cases, arith,
}
use foxbridge.Dict.{get, put, get-put}
use foxbridge.Heap.{load, load-store}
use foxbridge.Bridge.Json.{object}
use foxbridge.Bridge.State.{
  State, Env, emit, clear_contexts_for_session, resolve_cdp_session, cdp_frame,
}
use foxbridge.Bridge.State.Sends.{emit-sends, emit-after}
use foxbridge.Bridge.Pages.{
  Committed, loader_of, record_url, is_intermediate, refresh_frame, loader_for,
  clear_for_navigation, announce_navigation, navigation_committed, lifecycle, navigated,
}

module _ {Regexp B : Type 0} (env : Env B) where
  announce-loaders :
      (s : State Regexp B) (session_id frame_id url loader_id : String)
      → announce_navigation env s session_id frame_id url loader_id ≡ record s {
        loader_map = put s.loader_map session_id loader_id;
        sent = (announce_navigation env s session_id frame_id url loader_id).sent;
      }
  unfolding announce_navigation
  announce-loaders s session_id frame_id url loader_id =
      let s1 = record s { loader_map = put s.loader_map session_id loader_id } in
      let s2 = emit env s1 "Page.lifecycleEvent" (lifecycle frame_id loader_id "init") session_id in
      let s3 =
        emit env s2 "Page.lifecycleEvent" (lifecycle frame_id loader_id "commit") session_id in
      let h =
        emit-sends env s1 "Page.lifecycleEvent" (lifecycle frame_id loader_id "init") session_id in
      let h' =
        emit-after env s1 s2 "Page.lifecycleEvent" (lifecycle frame_id loader_id "commit")
          session_id h in
      emit-after env s1 s3 "Page.frameNavigated" (navigated frame_id url loader_id) session_id h'

  -- The session map has a pair with this page session for the Juggler session.
  record IsPaired (s : State Regexp B) (k : String) (p : ℕ) (page : String) : Type 0 where
    entry : get s.pairs k ≡ some p
    page_session : (load s.pair_cells p).ids.page_session_id ≡ page

  resolve-page :
      (s : State Regexp B) (k : String) (p : ℕ) (page : String)
      → (k == "") ≡ false
      → IsPaired s k p page
      → resolve_cdp_session s k ≡ page
  unfolding resolve_cdp_session
  resolve-page s k p page h i = rw (h, i.entry) i.page_session

  clear-IsPaired :
      (is_bidi : Bool) (s : State Regexp B) (session_id k : String) (p : ℕ) (page : String)
      → IsPaired s k p page
      → IsPaired (clear_for_navigation env is_bidi s session_id) k p page
  unfolding clear_for_navigation clear_contexts_for_session
  clear-IsPaired is_bidi s session_id k p page i =
      elim (Bool-cases (is_bidi && not (session_id == ""))) [
        | inl h ↦ rw h (
            subst⁻¹ (λ (y : State Regexp B). IsPaired y k p page)
              (emit-sends env (clear_contexts_for_session s session_id)
                "Runtime.executionContextsCleared" (object []) session_id)
              (record { entry = i.entry; page_session = i.page_session }))
        | inr h ↦ rw h i
      ]

  record_url-IsPaired :
      (s : State Regexp B) (k url : String) (p : ℕ) (page : String)
      → IsPaired s k p page
      → IsPaired (record_url s k url) k p page
  unfolding record_url
  record_url-IsPaired s k url p page i =
      rw (record_url, i.entry)
        (record {
          entry = i.entry;
          page_session =
              rw (load-store s.pair_cells p (record (load s.pair_cells p) { url = url }) p)
                (ground (arith, i.page_session));
        })

  announce-loader :
      (s : State Regexp B) (frame_id url loader_id k : String) (p : ℕ) (page : String)
      → (k == "") ≡ false
      → IsPaired s k p page
      → let s' = announce_navigation env s page frame_id url loader_id in
        get s'.loader_map (resolve_cdp_session s' k) ≡ some loader_id
  announce-loader s frame_id url loader_id k p page h i =
      subst⁻¹ (λ (y : State Regexp B). get y.loader_map (resolve_cdp_session y k) ≡ some loader_id)
        (announce-loaders s page frame_id url loader_id)
        (rw
          (resolve-page
            (record s {
              loader_map = put s.loader_map page loader_id;
              sent = (announce_navigation env s page frame_id url loader_id).sent;
            })
            k p page h (record { entry = i.entry; page_session = i.page_session }))
          (get-put s.loader_map page loader_id page ∙ ground arith))

  -- A navigation with an id in a page of the session map, that is not the blank page on the way, returns, and
  -- leaves that id as the one that the page's next load events are told under.
  pub navigation_committed-loader :
      (is_bidi : Bool) (s : State Regexp B) (k : String) (ev : Committed) (p : ℕ)
      → (k == "") ≡ false
      → get s.pairs k ≡ some p
      → (ev.navigation_id == "") ≡ false
      → is_intermediate (refresh_frame s k ev.frame_id) k ev.url ≡ false
      → (s' : State Regexp B) × (navigation_committed env is_bidi s k ev ≡ some s')
        × (loader_for s' (resolve_cdp_session s' k) ≡ ev.navigation_id)
  unfolding navigation_committed loader_of loader_for refresh_frame
  navigation_committed-loader is_bidi s k ev p a b c d =
      let s1 = refresh_frame s k ev.frame_id in
      let session_id = resolve_cdp_session s1 k in
      let frame_id = cdp_frame s1 k ev.frame_id in
      let s2 = record_url (clear_for_navigation env is_bidi s1 session_id) k ev.url in
      let i1 : IsPaired s1 k p session_id = record {
        entry = b;
        page_session = sym (
            resolve-page s1 k p (load s1.pair_cells p).ids.page_session_id a
              (record { entry = b; page_session = refl }));
      } in
      let i2 =
        record_url-IsPaired (clear_for_navigation env is_bidi s1 session_id) k ev.url p session_id
          (clear-IsPaired is_bidi s1 session_id k p session_id i1) in
      (
        announce_navigation env s2 session_id frame_id ev.url ev.navigation_id,
        rw (c, d) refl,
        rw (announce-loader s2 frame_id ev.url ev.navigation_id k p session_id a i2, c) refl,
      )
