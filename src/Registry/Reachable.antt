-- ===== src/Registry/Reachable.antt =====
-- The registries that the broker's use of the operations can reach.
use impulse_ring.Prelude.{ℕ, ◌≡◌, false, Str, ℤ, some, get, int_eq}
use impulse_ring.Registry.{
  Registry, ChannelMeta, FunctionMeta, new, add_client, remove_client, remove_client_channels,
  remove_client_functions, mark_subscribed, release_channel, reap_released, reap_if_released,
  alloc_channel_id, alloc_fn_id, insert_channel, insert_function, channel_name_taken,
  function_name_taken,
}
use impulse_ring.Registry.Linked.{HasRoom}
use impulse_ring.Registry.Invariant.{
  IsValid, new-IsValid, add_client-IsValid, remove_client-IsValid, drop_channels-IsValid,
  drop_functions-IsValid, mark_subscribed-IsValid, release_channel-IsValid,
  reap_if_released-IsValid, insert_channel-IsValid, insert_function-IsValid,
  alloc_channel_id-IsValid, alloc_fn_id-IsValid,
}

-- One operation. Ids are handed out while their counter is no more than an `i64`; a channel or a
-- function enters under the id handed out and a name that is free; a subscriber has found its
-- channel.
pub data Step (r : Registry) : Registry → Type 0 where
  client_added :
      (app_name : Str) (pid : ℤ) → HasRoom r.next_client → Step r (add_client r app_name pid).0
  client_removed : (id : ℤ) → Step r (remove_client r id)
  channels_removed : (owner : ℤ) → Step r (remove_client_channels r owner).0
  functions_removed : (owner : ℤ) → Step r (remove_client_functions r owner).0
  subscribed :
      (c : ChannelMeta) (id : ℤ) → get id r.channels ≡ some c → Step r (mark_subscribed r id)
  released :
      (name : Str) (owner : ℤ) (instant : ℕ) → Step r (release_channel r name owner instant).0
  reaped : (grace instant : ℕ) → Step r (reap_released r grace instant).0
  reaped_if_released : (name : Str) → Step r (reap_if_released r name).0
  channel_id_spent : HasRoom r.next_channel → Step r (alloc_channel_id r).0
  fn_id_spent : HasRoom r.next_fn → Step r (alloc_fn_id r).0
  channel_inserted :
      (c : ChannelMeta)
      → HasRoom r.next_channel
      → c.id ≡ r.next_channel
      → channel_name_taken r c.name ≡ false
      → Step r (insert_channel (alloc_channel_id r).0 c)
  function_inserted :
      (f : FunctionMeta)
      → HasRoom r.next_fn
      → f.id ≡ r.next_fn
      → function_name_taken r f.name ≡ false
      → Step r (insert_function (alloc_fn_id r).0 f)

pub data Reachable : Registry → Type 0 where
  start : Reachable new
  next : (r r' : Registry) → Reachable r → Step r r' → Reachable r'

Step-IsValid : {r r' : Registry} → IsValid r → Step r r' → IsValid r'
unfolding remove_client_channels remove_client_functions reap_released
Step-IsValid v (client_added app_name pid room) = add_client-IsValid app_name pid v room
Step-IsValid v (client_removed id) = remove_client-IsValid id v
Step-IsValid v (channels_removed owner) = drop_channels-IsValid _ v
Step-IsValid v (functions_removed owner) = drop_functions-IsValid _ v
Step-IsValid v (subscribed c id here) = mark_subscribed-IsValid id here v
Step-IsValid v (released name owner instant) = release_channel-IsValid name owner instant v
Step-IsValid v (reaped grace instant) = drop_channels-IsValid _ v
Step-IsValid v (reaped_if_released name) = reap_if_released-IsValid name v
Step-IsValid v (channel_id_spent room) = alloc_channel_id-IsValid v room
Step-IsValid v (fn_id_spent room) = alloc_fn_id-IsValid v room
Step-IsValid v (channel_inserted c room id_is free) = insert_channel-IsValid c v room id_is free
Step-IsValid v (function_inserted f room id_is free) = insert_function-IsValid f v room id_is free

-- In every registry that is reached from the new one, the tables and the name indexes agree, no
-- key stands twice, every id is below its counter, and only present channels are marked.
pub Reachable-IsValid : {r : Registry} → Reachable r → IsValid r
Reachable-IsValid start = new-IsValid
Reachable-IsValid (next r r' before step) = Step-IsValid (Reachable-IsValid before) step
