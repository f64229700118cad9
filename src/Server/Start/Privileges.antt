-- ===== src/Server/Start/Privileges.antt =====
-- With which user the server goes on.
use mathlib.Core.Path.{subst}
use spmfilter.Base.{
  ℕ, ◌≡◌, refl, sym, true, Bool-cases, Option-cases, inl, inr, Option, some, if◌then◌else◌, Bytes,
  pos, eq_ℤ,
}
use spmfilter.Settings.{Settings}
use spmfilter.Server.{Counters}
use spmfilter.Server.Start.{
  Run, exited, crashed, alive, M, pure, go_on, or_exit_none, Kernel, sig_init, daemonize,
  write_pid_file, switch_user, init_ipc, server_init,
}

-- What holds of a run where it goes on.
abbrev Ensures : {W A : Type 0} → (A → W → Type 0) → Run A × W → Type 0
Ensures P (exited c, w) = Unit
Ensures P (crashed, w) = Unit
Ensures P (alive a, w) = P a w

module _ {W B : Type 0} (P : B → W → Type 0) where
  go_on-Ensures :
      {A : Type 0} (r : Run A × W) (f : A → M W B)
      → ((a : A) (w : W) → Ensures P (f a w))
      → Ensures P (go_on r f)
  go_on-Ensures (exited c, w) f k = tt
  go_on-Ensures (crashed, w) f k = tt
  go_on-Ensures (alive a, w) f k = k a w

module _ {W : Type 0} (k : Kernel W) where
  -- The ids that belong to the two names were set, first that of the group, and what remains is the
  -- work on the shared memory.
  unfoldable pub IsSwitched : Bytes → Bytes → Settings → Run Counters × W → Type 0
  IsSwitched user group st r =
      (w : W) × ((gid : ℕ) × ((uid : ℕ) × (let (g, w1) = k.getgrnam w group in
            let (u, w2) = k.getpwnam w1 user in
            let (group_set, w3) = k.setgid w2 gid in
            let (user_set, w4) = k.setuid w3 uid in
            (g ≡ some gid)
            × ((u ≡ some uid)
                × ((group_set ≡ true) × ((user_set ≡ true) × (init_ipc k st w4 ≡ r)))))))

  -- For a run that ends alive.
  abbrev Switches : Bytes → Bytes → Settings → Run Counters × W → Type 0
  Switches user group st r = Ensures (λ c w'. IsSwitched user group st (alive c, w')) r

  kept-Switches :
      (user group : Bytes) (st : Settings) (r : Run Counters × W)
      → IsSwitched user group st r
      → Switches user group st r
  kept-Switches user group st (exited c, w) h = tt
  kept-Switches user group st (crashed, w) h = tt
  kept-Switches user group st (alive c, w) h = h

  switch_user-Switches :
      (user group : Bytes) (st : Settings) (w : W)
      → Switches user group st
          (go_on (switch_user k (some user) (some group) w) (λ _. init_ipc k st))
  unfolding IsSwitched
  switch_user-Switches user group st w =
      let w1 = (k.getgrnam w group).1 in
      let w2 = (k.getpwnam w1 user).1 in
      elim (Option-cases (k.getgrnam w group).0) [
        | inl n ↦ rw (n, or_exit_none) tt
        | inr (gid, g) ↦ elim (Option-cases (k.getpwnam w1 user).0) [
          | inl n ↦ rw (g, n, or_exit_none) tt
          | inr (uid, u) ↦ elim (Bool-cases (k.setgid w2 gid).0) [
            | inr n ↦ rw (g, u, n, or_exit_none) tt
            | inl y ↦ elim (Bool-cases (k.setuid (k.setgid w2 gid).1 uid).0) [
              | inr n ↦ rw (g, u, y, n, or_exit_none) tt
              | inl z ↦
                  rw (g, u, y, z, or_exit_none)
                    (kept-Switches user group st _ (w, (gid, (uid, (g, (u, (y, (z, refl))))))))
            ]
          ]
        ]
      ]

  server_init-Switches :
      (user group : Bytes) (st : Settings) (w : W)
      → st.user ≡ some user
      → st.group ≡ some group
      → Switches user group st (server_init k st w)
  unfolding server_init
  server_init-Switches user group st w hu hg = go_on-Ensures _ (sig_init k w) _ λ _ w1.
      go_on-Ensures _ ((if eq_ℤ st.foreground (pos 0) then daemonize k st else pure tt) w1) _
        λ _ w2. go_on-Ensures _ (write_pid_file k st.pid_file w2) _ λ _ w3.
          let run = λ (u g : Option Bytes). go_on (switch_user k u g w3) (λ _. init_ipc k st) in
          subst (λ u. Switches user group st (run u st.group)) (sym hu)
            (subst (λ g. Switches user group st (run (some user) g)) (sym hg)
              (switch_user-Switches user group st w3))

  -- Where a user and a group are configured and `smf_server_init` returns instead of ending the process,
  -- the ids of this group and of this user have been set, in this order, and nothing but the work on the
  -- semaphore and the shared memory came behind it.
  pub server_init-IsSwitched :
      (user group : Bytes) (st : Settings) (w w' : W) (c : Counters)
      → st.user ≡ some user
      → st.group ≡ some group
      → server_init k st w ≡ (alive c, w')
      → IsSwitched user group st (alive c, w')
  server_init-IsSwitched user group st w w' c hu hg h =
      subst (Switches user group st) h (server_init-Switches user group st w hu hg)
