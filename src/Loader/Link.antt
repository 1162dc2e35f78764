-- ===== src/Loader/Link.antt =====
-- The manager's link and its ring buffer over attachments and detachments.
use wg_ondemand.Base.{
  Option-cases, Result-cases, inl, inr, Text, List, Bool, ◌≡◌, refl, ◌⊎◌, Error, true, false, none,
  arith, is_some, ok, err, no_map,
}
use wg_ondemand.Os.{Os, then_io-ok}
use wg_ondemand.Ebpf.Slots.{SubnetMap}
use wg_ondemand.Loader.{
  Aya, EbpfManager, configure, load, load_object, validate_interface_exists, cleanup_stale_ebpf,
  attach, detach, poll_events, is_attached,
}

module _ {S : SubnetMap} (A : Aya S) (m : EbpfManager A) where
  -- An attached program has a ring buffer to report to.
  abbrev pub HasRing : Type 0
  HasRing = is_some m.link_id ≡ true → is_some m.ringbuf ≡ true

module _ {S : SubnetMap} (A : Aya S) (m : EbpfManager A) where
  -- If an attached program has its ring buffer, an attachment that succeeds leaves the program
  -- attached, on the same interface, with its ring buffer; and to attach again then changes
  -- nothing.
  pub attach_ok :
      HasRing A m
      → (attach A m).1 ≡ ok tt
      → let m' = (attach A m).0 in
        (is_attached A m' ≡ true)
        × (is_some (poll_events A m') ≡ true)
        × (m'.interface ≡ m.interface)
        × (attach A m' ≡ (m', ok tt))
  unfolding attach is_attached poll_events
  attach_ok h e = ground arith

  -- An attachment that was tried leaves the program attached, or has failed.
  abbrev pub Tried : EbpfManager A → Type 0
  Tried m' =
      (m' ≡ (attach A m).0) × ((is_attached A m' ≡ true) ⊎ ((e : Error) × ((attach A m).1 ≡ err e)))

  pub attach-Tried : Tried (attach A m).0
  unfolding attach is_attached
  attach-Tried = elim (Result-cases (attach A m).1) [
    | inl (_, e) ↦ (refl, inl (ground (arith, e)))
    | inr (e, failed) ↦ (refl, inr (e, failed))
  ]

  -- A detachment, whether it succeeds or not, forgets the link; and the ring buffer stays, so that
  -- polling answers as before.
  pub detach_forgets :
      let m' = (detach A m).0 in
      (is_attached A m' ≡ false)
      × (poll_events A m' ≡ poll_events A m)
      × (m'.interface ≡ m.interface)
      × (detach A m' ≡ (m', ok tt))
  unfolding detach is_attached poll_events
  detach_forgets = ground arith

  -- With no link and no ring buffer yet, if the ring buffer cannot be taken at an attachment, this
  -- attachment fails with the program attached; and to attach again then succeeds and changes
  -- nothing, so that there is no ring buffer.
  pub half_attached :
      is_some m.link_id ≡ false
      → m.ringbuf ≡ none
      → (attach A m).1 ≡ err no_map
      → let m' = (attach A m).0 in
        (is_attached A m' ≡ true) × (poll_events A m' ≡ none) × (attach A m' ≡ (m', ok tt))
  unfolding attach is_attached poll_events
  half_attached off fresh e = ground arith

module _ {S : SubnetMap} (A : Aya S) (interface : Text) (subnets : List Text) where
  -- A manager that has just been loaded: neither attached nor with a ring buffer, on the interface,
  -- and with a map that the subnets were written into.
  pub record Loaded (m : EbpfManager A) (map : S.Map) : Type 0 where
    pub fresh : S.Map
    pub configured : configure S subnets fresh ≡ ok map
    pub detached : is_attached A m ≡ false
    pub no_ring : m.ringbuf ≡ none
    pub on_interface : m.interface ≡ interface

  load_object-Loaded :
      (m : EbpfManager A) (map : S.Map)
      → load_object A interface subnets ≡ ok (m, map)
      → Loaded m map
  unfolding load_object is_attached
  load_object-Loaded m map h = elim (Option-cases A.load_bytes) [
    | inl e ↦ absurd (ground (arith, e, h))
    | inr (object, e) ↦ elim (Option-cases (A.subnets_map object)) [
      | inl e' ↦ absurd (ground (arith, e, e', h))
      | inr (start_map, e') ↦ record {
        fresh = start_map;
        configured = ground (arith, e, e', h);
        detached = ground (arith, e, e', h);
        no_ring = ground (arith, e, e', h);
        on_interface = ground (arith, e, e', h);
      }
    ]
  ]

  pub load-Loaded :
      (O : Os) (exists : Text → Bool) (s : O.State) (m : EbpfManager A) (map : S.Map)
      → (load O exists A interface subnets s).1 ≡ ok (m, map)
      → Loaded m map
  unfolding load
  load-Loaded O exists s m map h =
      elim (Result-cases (validate_interface_exists O exists interface)) [
        | inr (_, e) ↦ absurd (ground (arith, e, h))
        | inl (_, e) ↦
            let rest =
              then_io-ok O (cleanup_stale_ebpf O exists interface)
                (λ _ s'. (s', load_object A interface subnets)) s (m, map) (ground (arith, e, h)) in
            load_object-Loaded m map rest.2
      ]
