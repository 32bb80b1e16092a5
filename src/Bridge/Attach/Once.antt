-- ===== src/Bridge/Attach/Once.antt =====
-- pkg/bridge/events.go: a client is told of a page once, on one session.
use foxbridge.Common.{
  ℕ, String, ◌≡◌, ◌≢◌, refl, ap, ◌∙◌, ◌⊎◌, inl, inr, true, false, [], ◌∷◌, ◌++◌, some, arith,
  string_key, nat_key, Bool-cases,
}
use foxbridge.Bridge.Attach.Arrivals.{event, attach-told}
use foxbridge.Bridge.Ownership.Queries.{owner_for_target}
use foxbridge.Heap.{load, store, load-store}
use foxbridge.Bridge.State.{State, Env, TargetPair, emit, emit_raw}
use foxbridge.Bridge.Attach.Announce.{
  is_attached, mark_attached, attached_params, emit_page_attach_on_session, emit_auto_attach_pair,
}

marked-attached :
    (pair : TargetPair) (parent other : String)
    → (parent ≡ "") ⊎ (other ≡ parent)
    → is_attached (mark_attached pair parent) other ≡ true
marked-attached pair parent other h = ground arith

attached-other :
    (pair : TargetPair) (parent other : String)
    → (parent ≡ "") ⊎ (other ≡ parent)
    → is_attached pair parent ≡ true
    → is_attached pair other ≡ true
attached-other pair parent other h a = ground arith

module _ {Regexp B : Type 0} (env : Env B) where
  emit-pair_cells :
      (s : State Regexp B) (p : ℕ) (pair : TargetPair) (parent : String)
      → (emit env
          (record s { pair_cells = store s.pair_cells p pair })
          "Target.attachedToTarget"
          (attached_params (load s.pair_cells p))
          parent).pair_cells
        ≡ store s.pair_cells p pair
  unfolding emit emit_raw
  emit-pair_cells s p pair parent = ground arith

  attached-idle :
      (s : State Regexp B) (p : ℕ) (parent : String)
      → is_attached (load s.pair_cells p) parent ≡ true
      → emit_page_attach_on_session env s p parent ≡ s
  unfolding emit_page_attach_on_session
  attached-idle s p parent h = rw h

  emit-marks :
      (s : State Regexp B) (p : ℕ) (parent : String)
      → is_attached (load s.pair_cells p) parent ≡ false
      → load (emit_page_attach_on_session env s p parent).pair_cells p
        ≡ mark_attached (load s.pair_cells p) parent
  unfolding emit_page_attach_on_session
  emit-marks s p parent h = rw h (
      ap (λ c. load c p) (emit-pair_cells s p (mark_attached (load s.pair_cells p) parent) parent)
      ∙ grind (arith, load-store))

  emit-attached :
      (s : State Regexp B) (p : ℕ) (parent other : String)
      → (parent ≡ "") ⊎ (other ≡ parent)
      → is_attached (load (emit_page_attach_on_session env s p parent).pair_cells p) other ≡ true
  emit-attached s p parent other h = elim (Bool-cases (is_attached (load s.pair_cells p) parent)) [
    | inl y ↦
        rw (attached-idle s p parent y) (attached-other (load s.pair_cells p) parent other h y)
    | inr n ↦ rw (emit-marks s p parent n) (marked-attached (load s.pair_cells p) parent other h)
  ]

  -- Once the attachment of a page has been emitted on the root session, it is not emitted again,
  -- neither there nor on any other session. Once it has been emitted on a session, it is not emitted
  -- again there.
  emit_page_attach_once :
      (s : State Regexp B) (p : ℕ) (parent other : String)
      → (parent ≡ "") ⊎ (other ≡ parent)
      → emit_page_attach_on_session env (emit_page_attach_on_session env s p parent) p other
        ≡ emit_page_attach_on_session env s p parent
  emit_page_attach_once s p parent other h =
      attached-idle (emit_page_attach_on_session env s p parent) p other
        (emit-attached s p parent other h)

  -- The owner of a page that has not been told yet that it is attached, and is told on the root session and
  -- then on any session, its tab's for example: it gets one Target.attachedToTarget, and nobody else
  -- gets anything.
  pub emit_page_attach-told_once :
      (s : State Regexp B) (p : ℕ) (c : ℕ) (other : String)
      → let pair = load s.pair_cells p in
        pair.ids.page_target_id ≢ ""
        → env.decode_payload (some (env.marshal (attached_params pair)))
          ≡ some
              (record { target_id = ""; info_target_id = pair.ids.page_target_id; frame_id = "" })
        → owner_for_target s.ownership pair.ids.page_target_id ≡ some c
        → pair.page_attached_root ≡ false
        → (emit_page_attach_on_session env (emit_auto_attach_pair env s p) p other).sent
          ≡ s.sent ++ (c, event env "Target.attachedToTarget" (attached_params pair)) ∷ []
  unfolding emit_auto_attach_pair
  emit_page_attach-told_once s p c other n d o f =
      ap (λ (x : State Regexp B). x.sent) (emit_page_attach_once s p "" other (inl refl))
      ∙ attach-told env s p c n d o f
