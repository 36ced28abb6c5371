-- ===== src/Message/Tests.antt =====
-- A get request of the worker on rank 2 to the server on rank 1, and a message of two blobs.
use ddls.Prelude.{ℕ, ◌<◌, ◌^◌, ◌≡◌, refl, [], ◌∷◌, some, length, replicate, arith}
use ddls.Message.{Message, request_get, create_reply_message}
use ddls.Message.Routing.{reply-route, local_forward, server, worker, controller, zoo}
use ddls.Message.Wire.{
  RawMessage, serialize_blobs, to_bytes, serialize, deserialize, serialized_size,
  deserialize-serialize,
}

abbrev request : Message ℕ
request = record { src = 2; dst = 1; type = request_get; table_id = 4; msg_id = 7; blobs = 5 ∷ [] }

reply-route_example :
    (local_forward 1 request ≡ some server
      → local_forward 2 (create_reply_message request) ≡ some worker)
    × (local_forward 1 request ≡ some controller
        → local_forward 2 (create_reply_message request) ≡ some zoo)
    × ((create_reply_message request).msg_id ≡ 7)
    × ((create_reply_message request).table_id ≡ 4)
reply-route_example = reply-route request

request_routed : local_forward 1 request ≡ some server
unfolding local_forward
request_routed = refl

abbrev two_blobs : RawMessage
two_blobs = record { header = replicate 32 0; blobs = (3 ∷ []) ∷ (1 ∷ 2 ∷ []) ∷ [] }

two_blobs-small : length (serialize two_blobs) < 2 ^ 31
unfolding serialize serialize_blobs to_bytes
two_blobs-small = omega arith

deserialize-serialize_example :
    (deserialize (serialize two_blobs) ≡ some two_blobs)
    × (serialized_size two_blobs ≡ some (length (serialize two_blobs)))
deserialize-serialize_example =
    deserialize-serialize two_blobs refl
      ((omega arith, omega arith), ((omega arith, omega arith), tt)) two_blobs-small
