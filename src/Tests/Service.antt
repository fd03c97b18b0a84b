-- ===== src/Tests/Service.antt =====
-- A service that answers every call: the manager is object 100, the session 200, a process 300.
use wslcsession.Base.{refl, inl, inr, ℕ, zero, suc, true, false, Bytes, [], ◌∷◌, none, codes, pos}
use wslcsession.Com.Trace.{
  Env, Reply, Call, co_create_instance, invoke, socket_recv, socket_send, Args, settings, process,
}
use wslcsession.Options.{Options, VolumeOptions}
use wslcsession.Session.Dial.{IsOpen}
use wslcsession.Session.{World}
use wslcsession.Base.{length}

abbrev pub answer : ℕ → ℕ → Bytes → Reply
answer ret obj bytes = record {
  ret = ret;
  errno = 0;
  pointer = obj;
  std_handle = record { type = 3; handle = 7 };
  units = [];
  bytes = bytes;
  failure = none;
}

abbrev answer_method : Args → Reply
answer_method (settings _ _) = answer 0 200 []
answer_method (process _ _ _ _) = answer 0 300 []
answer_method _ = answer 0 0 []

abbrev pub answer_recv : ℕ → Reply
answer_recv zero = answer 0 0 []
answer_recv (suc zero) = answer 1 0 (codes "o")
answer_recv _ = answer 2 0 (codes "ok")

abbrev pub answer_call : Call → Reply
answer_call (co_create_instance _ _ _) = answer 0 100 []
answer_call (invoke _ _ args) = answer_method args
answer_call (socket_recv _ size) = answer_recv size
answer_call (socket_send _ buf) = answer (length buf) 0 []
answer_call _ = answer 0 0 []

abbrev pub service : Env
service = record {
  reply = λ _ c. answer_call c;
  others_close = λ _. false;
  pid = 42;
  temp_dir = codes "C:\\Temp";
  bridge_source = codes "int main";
  bridge_entrypoint = codes "set -e";
}

abbrev pub volume_x : VolumeOptions
volume_x = record { name = codes "x"; size_mb = 1024; fixed = false }

abbrev pub options : Options
options = record {
  display_name = codes "demo";
  cpu_count = 0;
  memory_mb = 512;
  boot_timeout = pos 0;
  storage_path = codes "C:\\data";
  max_storage_size_mb = 8192;
  volumes = volume_x ∷ [];
}

abbrev pub live_world : World
live_world = record {
  session = record {
    stopped = false;
    closed = false;
    close_once = false;
    mgr = 100;
    sess = 200;
    bridge_dir = [];
    bridge_done = false;
  };
  trace = [];
}

abbrev pub closed_world : World
closed_world = record {
  session = record {
    stopped = true;
    closed = true;
    close_once = true;
    mgr = 100;
    sess = 200;
    bridge_dir = [];
    bridge_done = false;
  };
  trace = [];
}

abbrev pub mounted_world : World
mounted_world = record {
  session = record {
    stopped = false;
    closed = false;
    close_once = false;
    mgr = 100;
    sess = 200;
    bridge_dir = codes "/mnt/wslcsession-bridge";
    bridge_done = true;
  };
  trace = [];
}

pub live_world-IsOpen : IsOpen live_world.session
live_world-IsOpen = record { going = refl; once = refl; bridge = inl refl }

pub mounted-IsOpen : IsOpen mounted_world.session
mounted-IsOpen = record { going = refl; once = refl; bridge = inr refl }
