-- ===== src/Mount/Inside/Entered.antt =====
-- src/nvc_mount.c: every mount happens in the namespace of the container, and the way back is taken.
use libxdxgpu_container.Base.{
  ℕ, ◌≡◌, refl, ◌∙◌, true, [], ◌∷◌, Option, none, some, ◌⊎◌, inl, inr, Bool-cases, Option-cases,
}
use libxdxgpu_container.Libc.{codes}
use libxdxgpu_container.Error.{ok, err, Failure}
use libxdxgpu_container.Devices.{NvcDevice, NvcMigDevice}
use libxdxgpu_container.Container.{NvcContainer}
use libxdxgpu_container.Kernel.{
  Act, setns, Namespace, at_path, at_fd, History, Kernel, Ended, done, failed, crashed, Op, run,
  perform, try, ◌>>=◌, ◌>>◌, continue, as_value,
}
use libxdxgpu_container.Kernel.Holds.{Holds, Holds-bind, Holds-pure}
use libxdxgpu_container.Mount.{NvcContext, ns_enter, ns_enter_at, leave, inside}
use libxdxgpu_container.Mount.Device.{nvc_device_mount}
use libxdxgpu_container.Mount.Driver.{NvcDriverInfo, driver_mounts, nvc_driver_mount}
use libxdxgpu_container.Mount.Caps.{
  Modprobe, nvc_mig_device_access_caps_mount, nvc_mig_config_global_caps_mount,
  nvc_mig_monitor_global_caps_mount, nvc_device_mig_caps_mount,
}
use libxdxgpu_container.Mount.View.{space, space-local}
use libxdxgpu_container.Mount.Inside.Single.{is_local}
use libxdxgpu_container.Mount.Inside.Operations.{Holds-device_mount, Holds-driver_mounts}
use libxdxgpu_container.Mount.Inside.Capabilities.{
  Holds-access_caps, Holds-global_caps, Holds-mig_caps,
}

-- Every call but setns was made in one namespace.
abbrev pub StaysIn : Namespace → History → Type 0
StaysIn ns [] = Unit
StaysIn ns ((act, r) ∷ h) = (is_local act ≡ true → space h ≡ some ns) × StaysIn ns h

-- The last call is the one that leads back, and it failed.
abbrev pub LostWay : NvcContext → History → Type 0
LostWay ctx h =
    (errno : ℕ) × (before : History) × (h ≡ (setns (at_fd ctx.mnt_ns), some errno) ∷ before)

-- Where an operation leaves the process, from the log at its start.
abbrev pub LeavesAt : NvcContext → History → History × Ended (Unit {0}) → Type 0
LeavesAt ctx start (h, done u) = space h ≡ some (at_fd ctx.mnt_ns)
LeavesAt ctx start (h, failed e) =
    (space h ≡ space start) ⊎ (space h ≡ some (at_fd ctx.mnt_ns)) ⊎ LostWay ctx h
LeavesAt ctx start (h, crashed) = Unit

-- An operation that stays in the namespace of a container, and comes back.
pub record Visits (ctx : NvcContext) (cnt : NvcContainer) (m : Op (Unit {0})) : Type 0 where
  pub stays :
      (h : History) → StaysIn (at_path cnt.mnt_ns) h → StaysIn (at_path cnt.mnt_ns) (run m h).0
  pub leaves : (h : History) → StaysIn (at_path cnt.mnt_ns) h → LeavesAt ctx h (run m h)

module _ (kernel : Kernel) (ctx : NvcContext) (cnt : NvcContainer) where
  abbrev Here : History → Type 0
  Here h = StaysIn (at_path cnt.mnt_ns) h × (space h ≡ some (at_path cnt.mnt_ns))

  Here-local :
      (a : Act) → is_local a ≡ true → (h : History) (r : Option ℕ) → Here h → Here ((a, r) ∷ h)
  Here-local a q h r (g, s) = ((λ _. s, g), space-local a q h r ∙ s)

  abbrev Both : History → History × Ended (Unit {0}) → Type 0
  Both start x = StaysIn (at_path cnt.mnt_ns) x.0 × LeavesAt ctx start x

  leave_ok : (start h : History) → Here h → Both start (run (leave kernel ctx (ok tt)) h)
  unfolding leave ns_enter_at perform space
  leave_ok start h (g, s) = elim (Option-cases (kernel.answer h (setns (at_fd ctx.mnt_ns)))) [
    | inl e ↦ rw e ((λ q. cc, g), refl)
    | inr (errno, e) ↦ rw e ((λ q. cc, g), inr (inr (errno, h, refl)))
  ]

  leave_err :
      (start h : History) (e : Failure) → Here h → Both start (run (leave kernel ctx (err e)) h)
  unfolding leave ns_enter_at perform space
  leave_err start h e (g, s) = elim (Option-cases (kernel.answer h (setns (at_fd ctx.mnt_ns)))) [
    | inl a ↦ rw a ((λ q. cc, g), inr (inl refl))
    | inr (errno, a) ↦ rw a ((λ q. cc, g), tt)
  ]

  back :
      (start : History) (x : History × Ended (Unit {0}))
      → Here x.0
      → Both start (continue (leave kernel ctx) (as_value x))
  back start (h, done u) i = leave_ok start h i
  back start (h, failed e) i = leave_err start h e i
  back start (h, crashed) (g, s) = (g, tt)

  -- Entering a namespace, and what follows where that succeeds.
  entering :
      (h : History) (k : Op (Unit {0}))
      → StaysIn (at_path cnt.mnt_ns) h
      → ((h' : History) → Here h' → Both h (run k h'))
      → Both h (run (ns_enter kernel cnt.mnt_ns >> k) h)
  unfolding ns_enter perform space
  entering h k g n = elim (Option-cases (kernel.open_read h cnt.mnt_ns)) [
    | inr (errno, e) ↦ rw e (g, inl refl)
    | inl e ↦ elim (Option-cases (kernel.answer h (setns (at_path cnt.mnt_ns)))) [
      | inr (errno, a) ↦ rw (e, a) ((λ q. cc, g), inl refl)
      | inl a ↦ rw (e, a) (n ((setns (at_path cnt.mnt_ns), none) ∷ h) ((λ q. cc, g), refl))
    ]
  ]

  inside-Both :
      (body : Op (Unit {0}))
      → Holds Here body
      → (h : History) → StaysIn (at_path cnt.mnt_ns) h
      → Both h (run (inside kernel ctx cnt body) h)
  unfolding inside
  inside-Both body l h g = elim (Bool-cases ctx.initialized) [
    | inr e ↦ rw e (g, inl refl)
    | inl e ↦
        rw e (
          entering h (try body >>= leave kernel ctx) g (λ h' i. back h (run body h') (l.runs h' i)))
  ]

  inside-Visits :
      (body : Op (Unit {0})) → Holds Here body → Visits ctx cnt (inside kernel ctx cnt body)
  inside-Visits body l = record {
    stays = λ h g. (inside-Both body l h g).0;
    leaves = λ h g. (inside-Both body l h g).1;
  }

-- From a log whose calls were all made in the mount namespace of the container, each of the six
-- operations makes every call but setns in that namespace. Where it succeeds, the process is back in
-- its own namespace; where it fails, it is where it was before, or back in its own namespace, or the
-- call that leads back was made last and failed.
pub operations-Visit :
    (kernel : Kernel) (modprobe : Modprobe) (ctx : NvcContext) (cnt : NvcContainer)
    (info : NvcDriverInfo) (dev : NvcDevice) (mig : NvcMigDevice)
    → Visits ctx cnt (nvc_driver_mount kernel ctx cnt info)
      × Visits ctx cnt (nvc_device_mount kernel ctx cnt dev)
      × Visits ctx cnt (nvc_mig_device_access_caps_mount kernel modprobe ctx cnt mig)
      × Visits ctx cnt (nvc_mig_config_global_caps_mount kernel modprobe ctx cnt)
      × Visits ctx cnt (nvc_mig_monitor_global_caps_mount kernel modprobe ctx cnt)
      × Visits ctx cnt (nvc_device_mig_caps_mount kernel modprobe ctx cnt dev)
unfolding nvc_driver_mount nvc_device_mount nvc_mig_device_access_caps_mount
    nvc_mig_config_global_caps_mount nvc_mig_monitor_global_caps_mount nvc_device_mig_caps_mount
operations-Visit kernel modprobe ctx cnt info dev mig =
    let I = Here kernel ctx cnt in
    let local = Here-local kernel ctx cnt in
    let visit = inside-Visits kernel ctx cnt in
    (
      visit _ (
          Holds-bind I (driver_mounts kernel ctx cnt info) _
            (Holds-driver_mounts I local kernel ctx cnt info) (λ mnts. Holds-pure I tt)),
      visit _ (Holds-device_mount I local kernel ctx cnt dev ctx.dxcore),
      visit _ (Holds-access_caps I local kernel modprobe ctx cnt mig),
      visit _ (Holds-global_caps I local kernel modprobe ctx cnt (codes "config")),
      visit _ (Holds-global_caps I local kernel modprobe ctx cnt (codes "monitor")),
      visit _ (Holds-mig_caps I local kernel modprobe ctx cnt dev.node_id),
    )
