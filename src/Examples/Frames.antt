-- ===== src/Examples/Frames.antt =====
-- The parts of the small world that its calls leave alone.
use golang_videoencoder_api.Prelude.{Bool, true, false, Option, none, some, ◌≡◌, refl, ap}
use golang_videoencoder_api.Domain.{Job}
use golang_videoencoder_api.Machine.Frame.{OsKeeps, StorageKeeps}
use golang_videoencoder_api.Repository.Frame.{PlatformKeeps, VideosKeep, JobsKeep}
use golang_videoencoder_api.Worker.Settlement.{AckLaws}
use golang_videoencoder_api.Examples.World.{
  World, rows, told, found, tool, platform, jobs, videos, os, storage, acker, lookup,
}

tool_same : (b : Bool) (w : World) → (tool b w).1 ≡ w
tool_same true w = refl
tool_same false w = refl

found_same : (o : Option Job) (w : World) → (found o w).1 ≡ w
found_same none w = refl
found_same (some job) w = refl

module _ {V : Type 0} (view : World → V) where
  pub os-OsKeeps : OsKeeps os view
  os-OsKeeps = record {
    mkdir = λ _. record { at = λ w. refl };
    create = λ _. record { at = λ w. refl };
    open_file = λ _. record { at = λ w. refl };
    close_file = λ _. record { at = λ w. refl };
    remove_all = λ _. record { at = λ w. refl };
    command = λ _ _ _. record { at = λ w. ap view (tool_same w.broken w) };
    walk = λ _ w. refl;
    schedule = λ w. refl;
  }

  pub storage-StorageKeeps : StorageKeeps storage view
  storage-StorageKeeps = record {
    new_client = record { at = λ w. refl };
    close_client = λ _. record { at = λ w. refl };
    new_reader = λ _ _ _ _. record { at = λ w. refl };
    close_reader = λ _. record { at = λ w. refl };
    read_from = λ _ _. record { at = λ w. refl };
    new_writer = λ _ _ _ _ w. refl;
    copy = λ _ _. record { at = λ w. refl };
    close_writer = λ _. record { at = λ w. refl };
  }

  pub videos-VideosKeep : VideosKeep videos view
  videos-VideosKeep = record { find = λ _. record { at = λ w. refl } }

pub platform-rows : PlatformKeeps platform rows
platform-rows = record { new_uuid = λ w. refl; now = λ w. refl }

pub platform-told : PlatformKeeps platform told
platform-told = record { new_uuid = λ w. refl; now = λ w. refl }

pub jobs-told : JobsKeep jobs told
jobs-told = record {
  insert = λ _. record { at = λ w. refl };
  find = λ id. record { at = λ w. ap told (found_same (lookup w.jobs id) w) };
  update = λ _. record { at = λ w. refl };
}

pub acker-AckLaws : AckLaws acker told
acker-AckLaws = record { ack = λ tag w. refl; nack = λ tag requeue w. refl }
