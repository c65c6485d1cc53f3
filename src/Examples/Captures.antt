-- ===== src/Examples/Captures.antt =====
-- The laws of captures, the messages sent out, old message queues, the configuration and segments at
-- concrete inputs.
use aiotc.Prelude.{
  Option, ℕ, none, Bool, ◌==◌, ◌≡◌, refl, true, false, some, List, [], ◌∷◌, ◌++◌, map, ℤ, pos,
  arith, take,
}
use aiotc.Cstring.{Text, codes, strcmp_eq, starts_with, strstr}
use aiotc.Slab.{Ptr}
use aiotc.Queue.{empty}
use aiotc.Queue.Blocks.{owns}
use aiotc.Work.{OutState, text_of}
use aiotc.Work.Queued.{
  IsOut, Call, copies, outputs, others_take, others_free, others_left, texts, run, accepted,
}
use aiotc.Work.Output.{run-Moves}
use aiotc.Work.Broker.{Amqp, Closes, mq_open_connect, mq_open_connect-Closes}
use aiotc.Capture.{Image, Item, CaptureEnv, face, capture, parse_list, cleared}
use aiotc.Capture.Urls.{Named, Reports, capture-Reports, images_of, image_of}
use aiotc.Ipc.{deal_buffer, read_number}
use aiotc.Ipc.Words.{words, first_two, deal_buffer-first_two}
use aiotc.Config.{ConfigParams, uri_size, config_init, db_init}
use aiotc.Config.Ports.{init_http_port}
use aiotc.Config.Ports.Reads.{missing, listens, file_of, init_http_port-file_of}
use aiotc.Config.Uri.{uri_of, db_init-take}
use aiotc.Hls.{HlsState, latest_num, del_at, del_old_ts, walk_back, before_ts}
use aiotc.Hls.Window.{
  Step, writes, lists, cleans, IsSwept, KeepsPace, floor_after, run-IsSwept, left, del_at-left,
}
use aiotc.Hls.Window as Window
use aiotc.Examples.Setup.{small_pool, one_document}

abbrev no_message : OutState small_pool.Pool
no_message = record { sp = 5 ∷ []; memory = λ a. []; queue = empty; conn = false }

-- The block 5 is another part's.
abbrev others : Ptr → Bool
others b = b == 5

-- Three messages; a round without a connection, one that opens it, and one in which the broker refuses.
abbrev sending : List Call
sending =
    copies (codes "a")
    ∷ outputs false true
    ∷ copies (codes "b")
    ∷ others_take 40
    ∷ copies (codes "c")
    ∷ others_free 5
    ∷ outputs true true
    ∷ outputs false false
    ∷ []

run-Moves_example :
    IsOut small_pool
      (others_left small_pool sending no_message others)
      (run small_pool sending no_message).1
    × (map text_of (run small_pool sending no_message).0
          ++ texts
              (run small_pool sending no_message).1.memory
              (run small_pool sending no_message).1.queue.nodes
        ≡ texts no_message.memory no_message.queue.nodes ++ accepted small_pool sending no_message)
unfolding owns
run-Moves_example = run-Moves small_pool sending no_message others (record {
  tight = λ b. ground arith;
  foreign = λ b e. absurd (ground (arith, e));
  apart = tt;
  counted = refl;
})

-- A broker that is reached, but refuses the login.
abbrev no_login : Amqp
no_login = record {
  has_conn = true;
  has_socket = true;
  opens = true;
  logs_in = false;
  has_channel = true;
  replies = true;
}

mq_open_connect-Closes_example : Closes no_login (mq_open_connect no_login)
mq_open_connect-Closes_example = mq_open_connect-Closes no_login

abbrev camera : CaptureEnv ℤ
camera = record {
  workdir = codes "/w";
  date = codes "20250101";
  local_ip = codes "10.0.0.1";
  http_port = pos 8088;
  obj_id = pos 7;
  per_mille = λ a b. a;
  mktime = λ t. pos 99;
}

abbrev shot : Text → Option ℕ → Image
shot kind accepts = record {
  kind = kind;
  shot_time = codes "20250101000000";
  bytes = codes "jpg";
  randnum = 5;
  accepts = accepts;
}

-- A face with its picture and the whole scene, whose file does not open.
abbrev faces : List Item
faces =
    record {
      left_top_x = pos 10;
      left_top_y = pos 20;
      right_btm_x = pos 30;
      right_btm_y = pos 40;
      shot_time = codes "20250101000000";
      images = shot (codes "11") (some 3) ∷ shot (codes "14") none ∷ [];
    }
    ∷ []

capture-Reports_example :
    (ns : List Named) × (map image_of ns ≡ images_of faces)
    × Reports camera (parse_list camera face (pos 1) (cleared camera) faces) ns
unfolding capture
capture-Reports_example =
    capture-Reports camera face (pos 0) faces
      (parse_list camera face (pos 1) (cleared camera) faces) refl

deal_buffer-first_two_example :
    deal_buffer 1000 50 (codes "      1001          3   666")
    ≡ first_two 1000 50 (words [] (codes "      1001          3   666"))
deal_buffer-first_two_example = deal_buffer-first_two 1000 50 (codes "      1001          3   666")

abbrev settings : ConfigParams
settings = record (config_init one_document (codes "aiotc.cfg")) {
  db_host = codes "10.0.0.1";
  db_port = pos 27017;
  db_user = codes "u";
  db_password = codes "p";
  db_name = codes "aiotc";
}

db_init-take_example : db_init settings ≡ take uri_size (uri_of settings)
db_init-take_example =
    db_init-take settings (record {
      host = omega arith;
      user = omega arith;
      password = omega arith;
      name = omega arith;
    })

-- A play list whose last segment is play7.ts.
abbrev play_list : Text
play_list =
    codes
      "#EXTM3U\n#EXT-X-VERSION:3\n#EXT-X-TARGETDURATION:2\n#EXTINF:2.0,\nplay6.ts\n#EXTINF:2.0,\nplay7.ts\n"

abbrev segments : HlsState
segments = record {
  files = λ n. some 1000;
  m3u8 = some play_list;
  last_ts_num = 6;
  last_ts_same_cnt = 0;
}

abbrev playing : List Step
playing = writes 8 1000 ∷ cleans ∷ writes 9 1000 ∷ cleans ∷ []

playing-KeepsPace : KeepsPace playing segments 0
unfolding KeepsPace latest_num walk_back before_ts read_number starts_with strcmp_eq del_old_ts
    del_at
playing-KeepsPace = (omega arith, (omega arith, (omega arith, (omega arith, tt))))

run-IsSwept_example : IsSwept (floor_after playing segments 0) (Window.run playing segments)
run-IsSwept_example =
    run-IsSwept playing segments 0 (λ n lt. absurd (omega (arith, lt))) playing-KeepsPace

del_at-left_example : (del_at 7 segments).files 4 ≡ left 7 segments.files 4
del_at-left_example = del_at-left 7 segments 4

-- The file conf/servers/hls.conf in short.
init_http_port-file_of_example :
    init_http_port
      (file_of (listens (codes "s {\n") (codes "  ") 8088 (codes "\n server_name 127.0.0.1;\n}")))
      (file_of missing)
      (1 ∷ [])
      (1 ∷ [])
      (record { http_port = pos 0; http_flv_port = pos 0 })
    ≡ record { http_port = pos 8088; http_flv_port = pos 8068 }
unfolding strstr starts_with strcmp_eq
init_http_port-file_of_example =
    init_http_port-file_of
      (listens (codes "s {\n") (codes "  ") 8088 (codes "\n server_name 127.0.0.1;\n}")) missing
      (1 ∷ []) (1 ∷ [])
      (record {
        first = refl;
        whole = (refl, (refl, (refl, (refl, tt))));
        spaces = (refl, (refl, tt));
        small = omega arith;
      })
      tt
