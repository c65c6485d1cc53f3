-- ===== src/Work/Broker.antt =====
-- The broker of the messages (src/mq.cpp, and mqOpen of src/work.cpp): its settings, which are read from
-- the system's parameters, and the opening of a connection. What the calls of the RabbitMQ client
-- answer is the record Amqp.
use aiotc.Prelude.{
  ℕ, zero, suc, ◌+◌, ◌≡◌, ◌↔◌, Bool, true, false, not, ◌&&◌, ◌||◌, Option, none, some, List, [],
  ◌∷◌, ◌++◌, ℤ, pos, minus_one, eq_ℤ, arith, if◌then◌else◌, is_some, ◌>>=◌,
}
use aiotc.Cstring.{Text, codes, strncpy, strcmp_eq}
use aiotc.Json.{Host, str_at, int_at, get_array_buf_from_json, get_buf_from_array}

-- mqOutParams; `objExchange` is never used.
pub record MqOutParams : Type 0 where
  pub host : Text
  pub port : ℤ
  pub user_name : Text
  pub pass_word : Text
  pub exchange : Text
  pub routing_key : Text

-- What the calls of amqp_... in mqOpenConnect answer.
pub record Amqp : Type 0 where
  pub has_conn : Bool
  pub has_socket : Bool
  pub opens : Bool
  pub logs_in : Bool
  pub has_channel : Bool
  pub replies : Bool

-- The calls that make or end something on the broker's side, or the connection itself.
pub data AmqpCall : Type 0 where
  new_connection opened_socket opened_channel closed_channel closed_connection destroyed : AmqpCall

-- mqOpenConnect: what it returns, whether `*ppConn` is set, and the calls that it made.
pub record Opening : Type 0 where
  pub ret : ℤ
  pub conn : Bool
  pub calls : List AmqpCall

abbrev made : Bool → AmqpCall → List AmqpCall
made true c = c ∷ []
made false c = []

-- The label `new_err`: what the calls so far opened is closed.
abbrev new_err : (connection_opened channel_opened : Bool) → List AmqpCall
new_err connection_opened channel_opened =
    made channel_opened closed_channel ++ made connection_opened closed_connection ++ destroyed ∷ []

-- mqOpenConnect. A socket that does not open does not end it: amqp_login is called all the same.
unfoldable pub mq_open_connect : Amqp → Opening
mq_open_connect a =
    if not a.has_conn
    then record { ret = minus_one; conn = false; calls = [] }
    else if not a.has_socket
    then record { ret = minus_one; conn = false; calls = new_connection ∷ [] }
    else if not a.logs_in
    then record {
      ret = minus_one;
      conn = false;
      calls = new_connection ∷ made a.opens opened_socket ++ new_err a.opens false;
    }
    else if not a.replies
    then record {
      ret = minus_one;
      conn = false;
      calls =
          new_connection ∷ made a.opens opened_socket
          ++ made a.has_channel opened_channel
          ++ new_err a.opens a.has_channel;
    }
    else record {
      ret = pos 0;
      conn = true;
      calls = new_connection ∷ made a.opens opened_socket ++ made a.has_channel opened_channel;
    }

-- `strncpy(field, value, n)` where the value was found.
abbrev copied_to : ℕ → Option Text → Text → Text
copied_to n none old = old
copied_to n (some val) old = strncpy n val

module _ (h : Host) where
  -- initMqParams
  unfoldable pub init_mq_params : Text → MqOutParams → MqOutParams
  init_mq_params buf p =
      let host = str_at h buf "host" in
      let user_name = str_at h buf "userName" in
      let pass_word = str_at h buf "passWord" in
      let exchange = str_at h buf "exchange" in
      let given = is_some host && (is_some user_name && (is_some pass_word && is_some exchange)) in
      let p1 : MqOutParams =
        if given
        then record {
          host = copied_to 128 host p.host;
          port = int_at h buf "port";
          user_name = copied_to 64 user_name p.user_name;
          pass_word = copied_to 64 pass_word p.pass_word;
          exchange = copied_to 256 exchange p.exchange;
          routing_key = p.routing_key;
        }
        else p in
      elim (str_at h buf "type") [
        | none ↦ p
        | some kind ↦
            if strcmp_eq kind (codes "mq")
            then record p1 { routing_key = copied_to 256 (str_at h buf "routingKey") p.routing_key }
            else p
      ]

  -- The loop of mqOpen that waits for the system's parameters, which `sys i` gives at look number `i`:
  -- the number of looks.
  unfoldable pub wait_system : (wait : ℕ) → (ℕ → Option Text) → (i : ℕ) → ℕ
  wait_system zero sys i = suc i
  wait_system (suc wait) sys i =
      let rest = wait_system wait sys (suc i) in if is_some (sys i) then suc i else rest

  -- The settings in the system's parameters: the first element of the array "msgOutParams".
  abbrev first_out : Text → Option Text
  first_out sys_org_data = do
    mqout ← (get_array_buf_from_json h sys_org_data (some (codes "msgOutParams")) none none 0).0
    get_buf_from_array h mqout none none none 0

  abbrev found_params : Option Text → MqOutParams → MqOutParams
  found_params none p = p
  found_params (some arrbuf) p = init_mq_params arrbuf p

  -- mqOpen: the settings, and mqOpenConnect where it is called.
  unfoldable pub mq_open : (ℕ → Option Text) → Amqp → MqOutParams → MqOutParams × Option Opening
  unfolding init_mq_params wait_system mq_open_connect
  mq_open sys a p =
      if eq_ℤ p.port (pos 0)
      then (let sys_org_data = sys (wait_system 10 sys 0) in
          let q = found_params (do org ← sys_org_data; first_out org) p in
          (q, (if eq_ℤ q.port (pos 0) then none else some (mq_open_connect a))))
      else (p, some (mq_open_connect a))

-- How often a call was made.
abbrev is_call : AmqpCall → AmqpCall → Bool
is_call new_connection new_connection = true
is_call opened_socket opened_socket = true
is_call opened_channel opened_channel = true
is_call closed_channel closed_channel = true
is_call closed_connection closed_connection = true
is_call destroyed destroyed = true
is_call c d = false

abbrev pub times : AmqpCall → List AmqpCall → ℕ
times c [] = 0
times c (d ∷ ds) = if is_call c d then suc (times c ds) else times c ds

-- What is open when mqOpenConnect returns.
pub record Closes (a : Amqp) (o : Opening) : Type 0 where
  pub given : (o.conn ≡ true) ↔ (o.ret ≡ pos 0)
  pub connections :
      times new_connection o.calls
      ≡ times destroyed o.calls + (if o.conn || (a.has_conn && not a.has_socket) then 1 else 0)
  pub sockets :
      times opened_socket o.calls
      ≡ times closed_connection o.calls + (if o.conn && a.opens then 1 else 0)
  pub channels :
      times opened_channel o.calls
      ≡ times closed_channel o.calls + (if o.conn && a.has_channel then 1 else 0)

-- mqOpenConnect returns 0 exactly if it gives a connection, whatever the broker answers. If it gives
-- none, it closes the socket and the channel that it opened and destroys the connection that it made,
-- each once, except that a connection for which no socket could be made is never destroyed; if it gives
-- one, it closes nothing.
pub mq_open_connect-Closes : (a : Amqp) → Closes a (mq_open_connect a)
unfolding mq_open_connect
mq_open_connect-Closes a = ground arith
