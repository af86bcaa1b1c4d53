-- ===== src/Dm/Ipc/Buffer.antt =====
-- The receive buffer of ipc.c never overflows, and its length is right while there is a connection.
use isde.Common.{
  ℕ, ◌+◌, ◌-◌, ◌≤◌, ◌≡◌, refl, Bool, true, false, List, [], ◌∷◌, ◌++◌, length, take, if◌then◌else◌,
  arith, length-append, length-take,
}
use isde.Common.Int.{ℤ, pos, ◌-ℤ◌, -ℤ_parts, eq_of_parts, ltb_ℤ}
use isde.Dm.State.{Os, Dm, note}
use isde.Dm.Session.{forked_greeter, greeter_start, lock_session, session_cleanup}
use isde.Dm.Ipc.{
  ipc_accept, drain, dropped, Read, bytes, ended, interrupted, kept, received, ipc_read, ipc_handle,
  Wakeup, accept, readable, lock, greeter_exited, session_exited, serve, serve_all,
}
use isde.Dm.Ipc.Length.{Same, SameLen, drain-SameLen}

-- While the greeter is connected, the length counts the bytes of the buffer, and a byte is left for the
-- final zero.
abbrev pub Fits : (connected : Bool) → List ℕ → ℤ → Type 0
Fits false buf len = Unit {0}
Fits true buf len = (len ≡ pos (length buf)) × (length buf ≤ 4095)

abbrev pub FitsBuffer : Dm → Type 0
FitsBuffer dm = Fits dm.connected dm.ipc_buf dm.ipc_buf_len

module _ (os : Os) where
  greeter_start-FitsBuffer : (dm : Dm) → FitsBuffer dm → FitsBuffer (greeter_start os dm)
  unfolding greeter_start forked_greeter note
  greeter_start-FitsBuffer dm v = ground arith

  lock_session-FitsBuffer : (dm : Dm) → FitsBuffer dm → FitsBuffer (lock_session os dm)
  unfolding lock_session greeter_start forked_greeter note
  lock_session-FitsBuffer dm v = ground arith

  session_cleanup-FitsBuffer : (dm : Dm) → FitsBuffer dm → FitsBuffer (session_cleanup os dm)
  unfolding session_cleanup greeter_start forked_greeter note
  session_cleanup-FitsBuffer dm v = ground arith

  -- What is left of n bytes.
  rest_len : (len : ℤ) (n m : ℕ) → len ≡ pos n → m ≤ n → len -ℤ pos (n - m) ≡ pos m
  rest_len len n m e h =
      ground (arith, -ℤ_parts len (pos (n - m)), eq_of_parts (len -ℤ pos (n - m)) (pos m))

  kept-FitsBuffer :
      (all : List ℕ) (r : Dm × List ℕ)
      → SameLen (pos (length all)) (r.0)
      → length (r.1) ≤ length all
      → length all ≤ 4095
      → FitsBuffer (kept os all r)
  unfolding kept
  kept-FitsBuffer all (dm, start) v h k =
      ground (arith, rest_len dm.ipc_buf_len (length all) (length start))

  received-FitsBuffer :
      (new : List ℕ) (dm : Dm)
      → length dm.ipc_buf + length new ≤ 4095
      → FitsBuffer (received os new dm)
  unfolding received
  received-FitsBuffer new dm h =
      let all = dm.ipc_buf ++ new in
      let start = record dm { ipc_buf = all; ipc_buf_len = pos (length all) } in
      let d =
        drain-SameLen (pos (length all)) os [] all all start (started dm.connected (length all))
          (omega arith) in
      kept-FitsBuffer all (drain os [] all all start) d.0 d.1
        (omega (arith, length-append dm.ipc_buf new))
    where
      started : (b : Bool) (n : ℕ) → Same (pos n) b (pos n)
      started true n = refl
      started false n = tt

  ipc_read-FitsBuffer :
      (r : Read) (dm : Dm)
      → length dm.ipc_buf ≤ 4095
      → FitsBuffer dm
      → FitsBuffer (ipc_read os r dm)
  unfolding ipc_read dropped
  ipc_read-FitsBuffer (bytes new) dm h v =
      received-FitsBuffer (take (4096 - length dm.ipc_buf - 1) new) dm
        (omega (arith, length-take (4096 - length dm.ipc_buf - 1) new))
  ipc_read-FitsBuffer ended dm h v = tt
  ipc_read-FitsBuffer interrupted dm h v = v

  fits_length : (dm : Dm) → dm.connected ≡ true → FitsBuffer dm → length dm.ipc_buf ≤ 4095
  fits_length dm on v = ground arith

  -- The three branches of `dm_ipc_handle`.
  branch-FitsBuffer :
      (r : Read) (dm : Dm) (on room : Bool)
      → dm.connected ≡ on
      → FitsBuffer dm
      → FitsBuffer (if on then (if room then ipc_read os r dm else dropped os dm) else dm)
  unfolding dropped
  branch-FitsBuffer r dm true true e v = ipc_read-FitsBuffer r dm (fits_length dm e v) v
  branch-FitsBuffer r dm true false e v = tt
  branch-FitsBuffer r dm false room e v = v

  ipc_handle-FitsBuffer : (r : Read) (dm : Dm) → FitsBuffer dm → FitsBuffer (ipc_handle os r dm)
  unfolding ipc_handle
  ipc_handle-FitsBuffer r dm v =
      branch-FitsBuffer r dm dm.connected (ltb_ℤ dm.ipc_buf_len (pos 4095)) refl v

  serve-FitsBuffer : (i : Wakeup) (dm : Dm) → FitsBuffer dm → FitsBuffer (serve os i dm)
  unfolding serve ipc_accept
  serve-FitsBuffer (accept true) dm v = (refl, omega arith)
  serve-FitsBuffer (accept false) dm v = v
  serve-FitsBuffer (readable r) dm v = ipc_handle-FitsBuffer r dm v
  serve-FitsBuffer lock dm v = lock_session-FitsBuffer dm v
  serve-FitsBuffer greeter_exited dm v = v
  serve-FitsBuffer session_exited dm v = session_cleanup-FitsBuffer dm v

  -- Whatever the greeter sends and whatever else happens, in any order: if it held before, then while the
  -- greeter is connected `ipc_buf_len` is the number of bytes in the buffer, and those leave room for the
  -- final zero in DM_IPC_MAX_MSG bytes.
  pub serve_all-FitsBuffer :
      (is : List Wakeup) (dm : Dm) → FitsBuffer dm → FitsBuffer (serve_all os is dm)
  unfolding serve_all
  serve_all-FitsBuffer [] dm v = v
  serve_all-FitsBuffer (i ∷ is) dm v =
      serve_all-FitsBuffer is (serve os i dm) (serve-FitsBuffer i dm v)
