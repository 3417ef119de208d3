-- ===== src/Machine/Frame.antt =====
-- A part of the world, such as the database, that the disk, the tools and the storage do not touch.
use golang_videoencoder_api.Prelude.{ℕ, Bytes, List, ◌≡◌}
use golang_videoencoder_api.Exec.Keeps.{Keeps}
use golang_videoencoder_api.Machine.{Context, Os, Storage}

module _ {W V : Type 0} where
  pub record OsKeeps (os : Os W) (view : W → V) : Type 0 where
    pub mkdir : (path : Bytes) → Keeps view (os.mkdir path)
    pub create : (path : Bytes) → Keeps view (os.create path)
    pub open_file : (path : Bytes) → Keeps view (os.open_file path)
    pub close_file : (file : ℕ) → Keeps view (os.close_file file)
    pub remove_all : (path : Bytes) → Keeps view (os.remove_all path)
    pub command :
        (ctx : Context) (name : Bytes) (args : List Bytes) → Keeps view (os.command ctx name args)
    pub walk : (path : Bytes) (w : W) → view (os.walk path w).1 ≡ view w
    pub schedule : (w : W) → view (os.schedule w).1 ≡ view w

  pub record StorageKeeps (storage : Storage W) (view : W → V) : Type 0 where
    pub new_client : Keeps view storage.new_client
    pub close_client : (client : ℕ) → Keeps view (storage.close_client client)
    pub new_reader :
        (ctx : Context) (client : ℕ) (bucket object : Bytes)
        → Keeps view (storage.new_reader ctx client bucket object)
    pub close_reader : (reader : ℕ) → Keeps view (storage.close_reader reader)
    pub read_from : (file reader : ℕ) → Keeps view (storage.read_from file reader)
    pub new_writer :
        (ctx : Context) (client : ℕ) (bucket object : Bytes) (w : W)
        → view (storage.new_writer ctx client bucket object w).1 ≡ view w
    pub copy : (writer file : ℕ) → Keeps view (storage.copy writer file)
    pub close_writer : (writer : ℕ) → Keeps view (storage.close_writer writer)
