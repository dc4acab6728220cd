-- ===== src/Cmd/Creation.antt =====
-- create and format of a command, on the heap.
use hiredis_happ.Common.{ℕ, suc, ◌≡◌, refl, true, false, List, Bytes, none, some, pos, negsuc}
use hiredis_happ.Memory.{Cmd, Callback, Memory, Driver, update, get_cmd}
use hiredis_happ.Memory.Laws.{>>=-some, get_cmd_lem}
use hiredis_happ.Cmd

-- A new command without content.
abbrev pub empty_cmd : Callback → ℕ → Cmd
empty_cmd cbk pridata = record {
  raw_len = 0;
  content = none;
  ttl = Cmd.default_ttl;
  callback = cbk;
  error_code = pos 0;
  slot = negsuc 0;
  private_data = pridata;
}

module _ (driver : Driver) where
  pub create-none :
      (cbk : Callback) (pridata n : ℕ) (m : Memory)
      → driver.malloc m.trace (Cmd.alloc_size n) ≡ false
      → Cmd.create driver cbk pridata n m ≡ some (none, m)
  unfolding Cmd.create
  create-none cbk pridata n m h = rw h refl

  pub create-some :
      (cbk : Callback) (pridata n : ℕ) (m : Memory)
      → driver.malloc m.trace (Cmd.alloc_size n) ≡ true
      → Cmd.create driver cbk pridata n m
        ≡ some (
          some m.next_cmd,
          record m {
            cmds = update m.cmds m.next_cmd (some (empty_cmd cbk pridata));
            next_cmd = suc m.next_cmd;
          },
        )
  unfolding Cmd.create
  create-some cbk pridata n m h = rw h refl

  pub vformat_lem :
      (c : ℕ) (fmt : Bytes) (args : List Bytes) (m : Memory) (x : Cmd)
      → m.cmds c ≡ some x
      → Cmd.vformat driver c fmt args m
        ≡ some (
          (driver.format fmt args).ret,
          record m {
            cmds = update m.cmds c (
                some (record x {
                  raw_len = Cmd.raw_length (driver.format fmt args).ret;
                  content = (driver.format fmt args).out;
                }));
          },
        )
  unfolding Cmd.vformat Cmd.free_cmd_content
  vformat_lem c fmt args m x h = >>=-some (get_cmd c) _ m (get_cmd_lem c m h)

  pub vformat_argv_lem :
      (c : ℕ) (argv : List Bytes) (m : Memory) (x : Cmd)
      → m.cmds c ≡ some x
      → Cmd.vformat_argv driver c argv m
        ≡ some (
          (driver.format_argv argv).ret,
          record m {
            cmds =
                update m.cmds c
                  (some (record x { raw_len = 0; content = (driver.format_argv argv).out }));
          },
        )
  unfolding Cmd.vformat_argv Cmd.free_cmd_content
  vformat_argv_lem c argv m x h = >>=-some (get_cmd c) _ m (get_cmd_lem c m h)
