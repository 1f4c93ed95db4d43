-- ===== src/Nfs/Requests.antt =====
-- src/nfs/fs.rs: the requests of the trait `NFSFileSystem`, and a sequence of them.
use lunar_fs.Base.{ℕ, List, [], ◌∷◌, Bytes}
use lunar_fs.Base.Calls.{returns, ◌>>>◌}
use lunar_fs.Cas.{Store}
use lunar_fs.Nfs.{Mount, CasNfs, Handler, Sattr}
use lunar_fs.Nfs.Handlers

pub data Request : Type 0 where
  lookup : ℕ → Bytes → Request
  getattr : ℕ → Request
  read : ℕ → ℕ → ℕ → Request
  readdir : ℕ → ℕ → ℕ → Request
  write : ℕ → ℕ → Bytes → Request
  create : ℕ → Bytes → Sattr → Request
  create_exclusive : ℕ → Bytes → Request
  mkdir : ℕ → Bytes → Request
  remove : ℕ → Bytes → Request
  rename : ℕ → Bytes → ℕ → Bytes → Request
  setattr : ℕ → Sattr → Request
  symlink : ℕ → Bytes → Bytes → Sattr → Request
  readlink : ℕ → Request

module _ {S : Store} (m : Mount) where
  abbrev pub done : {A : Type 0} → Handler S A → Handler S (Unit {0})
  done call = call >>> λ _. returns tt

  -- What a request does, its reply aside.
  unfoldable pub handle : Request → Handler S (Unit {0})
  handle (Request.lookup dirid name) = done (Handlers.lookup dirid name)
  handle (Request.getattr id) = done (Handlers.getattr m id)
  handle (Request.read id offset count) = done (Handlers.read m id offset count)
  handle (Request.readdir dirid start_after max_entries) =
      done (Handlers.readdir m dirid start_after max_entries)
  handle (Request.write id offset bytes) = done (Handlers.write m id offset bytes)
  handle (Request.create dirid name attr) = done (Handlers.create m dirid name attr)
  handle (Request.create_exclusive dirid name) = done (Handlers.create_exclusive m dirid name)
  handle (Request.mkdir dirid name) = done (Handlers.mkdir m dirid name)
  handle (Request.remove dirid name) = Handlers.remove m dirid name
  handle (Request.rename from_dirid from_name to_dirid to_name) =
      Handlers.rename m from_dirid from_name to_dirid to_name
  handle (Request.setattr id attr) = done (Handlers.setattr m id attr)
  handle (Request.symlink dirid name target attr) = done (Handlers.symlink dirid name target attr)
  handle (Request.readlink id) = done (Handlers.readlink id)

  -- The requests of a session, one after the other; an error is answered, and the next is served.
  unfoldable pub serve : List Request → CasNfs S → CasNfs S
  serve [] s = s
  serve (r ∷ rest) s = serve rest (handle r s).1
