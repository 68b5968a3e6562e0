-- ===== src/Logger/Fields.antt =====
-- logger/fields.go: the fields with their names.
use streamweaver.Prelude.{ℕ, [], ◌∷◌, Text, bytes, Table, put, ℤ}
use streamweaver.Logger.{
  Value, str, int, int64, float64, dur, time, Event, add_field, DefaultLogger, with_fields,
}

abbrev pub StandardFields : Type 0
StandardFields = Table Value

unfoldable pub new_standard_fields : StandardFields
new_standard_fields = []

unfoldable pub with_field : Text → Value → StandardFields → StandardFields
unfolding put
with_field key value sf = put key value sf

unfoldable pub with_correlation_id : Text → StandardFields → StandardFields
unfolding with_field
with_correlation_id id = with_field (bytes "correlation_id") (str id)

unfoldable pub with_method : Text → StandardFields → StandardFields
unfolding with_field
with_method method = with_field (bytes "method") (str method)

unfoldable pub with_url : Text → StandardFields → StandardFields
unfolding with_field
with_url url = with_field (bytes "url") (str url)

unfoldable pub with_path : Text → StandardFields → StandardFields
unfolding with_field
with_path path = with_field (bytes "path") (str path)

unfoldable pub with_status_code : ℤ → StandardFields → StandardFields
unfolding with_field
with_status_code code = with_field (bytes "status_code") (int code)

unfoldable pub with_duration : ℤ → StandardFields → StandardFields
unfolding with_field
with_duration duration = with_field (bytes "duration") (dur duration)

unfoldable pub with_client_ip : Text → StandardFields → StandardFields
unfolding with_field
with_client_ip ip = with_field (bytes "client_ip") (str ip)

unfoldable pub with_user_agent : Text → StandardFields → StandardFields
unfolding with_field
with_user_agent user_agent = with_field (bytes "user_agent") (str user_agent)

unfoldable pub with_component : Text → StandardFields → StandardFields
unfolding with_field
with_component component = with_field (bytes "component") (str component)

unfoldable pub with_operation : Text → StandardFields → StandardFields
unfolding with_field
with_operation operation = with_field (bytes "operation") (str operation)

unfoldable pub with_error : Text → StandardFields → StandardFields
unfolding with_field
with_error err = with_field (bytes "error") (str err)

unfoldable pub with_error_type : Text → StandardFields → StandardFields
unfolding with_field
with_error_type error_type = with_field (bytes "error_type") (str error_type)

unfoldable pub with_stream_id : Text → StandardFields → StandardFields
unfolding with_field
with_stream_id id = with_field (bytes "stream_id") (str id)

unfoldable pub with_channel_name : Text → StandardFields → StandardFields
unfolding with_field
with_channel_name name = with_field (bytes "channel_name") (str name)

unfoldable pub with_playlist_url : Text → StandardFields → StandardFields
unfolding with_field
with_playlist_url url = with_field (bytes "playlist_url") (str url)

unfoldable pub with_segment_url : Text → StandardFields → StandardFields
unfolding with_field
with_segment_url url = with_field (bytes "segment_url") (str url)

unfoldable pub with_buffer_status : Text → StandardFields → StandardFields
unfolding with_field
with_buffer_status status = with_field (bytes "buffer_status") (str status)

unfoldable pub with_client_count : ℤ → StandardFields → StandardFields
unfolding with_field
with_client_count count = with_field (bytes "client_count") (int count)

unfoldable pub with_stream_type : Text → StandardFields → StandardFields
unfolding with_field
with_stream_type stream_type = with_field (bytes "stream_type") (str stream_type)

unfoldable pub with_load_balancer_result : Text → StandardFields → StandardFields
unfolding with_field
with_load_balancer_result result = with_field (bytes "load_balancer_result") (str result)

unfoldable pub with_target_url : Text → StandardFields → StandardFields
unfolding with_field
with_target_url url = with_field (bytes "target_url") (str url)

unfoldable pub with_attempt_count : ℤ → StandardFields → StandardFields
unfolding with_field
with_attempt_count count = with_field (bytes "attempt_count") (int count)

unfoldable pub with_failover_reason : Text → StandardFields → StandardFields
unfolding with_field
with_failover_reason reason = with_field (bytes "failover_reason") (str reason)

unfoldable pub with_latency : ℤ → StandardFields → StandardFields
unfolding with_field
with_latency latency = with_field (bytes "latency") (dur latency)

unfoldable pub with_bytes_transferred : ℤ → StandardFields → StandardFields
unfolding with_field
with_bytes_transferred count = with_field (bytes "bytes_transferred") (int64 count)

unfoldable pub with_response_size : ℤ → StandardFields → StandardFields
unfolding with_field
with_response_size size = with_field (bytes "response_size") (int64 size)

unfoldable pub with_request_size : ℤ → StandardFields → StandardFields
unfolding with_field
with_request_size size = with_field (bytes "request_size") (int64 size)

unfoldable pub with_memory_usage : ℤ → StandardFields → StandardFields
unfolding with_field
with_memory_usage usage = with_field (bytes "memory_usage") (int64 usage)

unfoldable pub with_cpu_usage : Text → StandardFields → StandardFields
unfolding with_field
with_cpu_usage usage = with_field (bytes "cpu_usage") (float64 usage)

unfoldable pub with_goroutine_count : ℤ → StandardFields → StandardFields
unfolding with_field
with_goroutine_count count = with_field (bytes "goroutine_count") (int count)

unfoldable pub with_time : Text → ℕ → StandardFields → StandardFields
unfolding with_field
with_time key t = with_field key (time t)

-- The fields in the order of the map.
unfoldable pub apply_to_event : StandardFields → Event → Event
unfolding add_field
apply_to_event [] e = e
apply_to_event ((key, value) ∷ sf) e = apply_to_event sf (add_field key value e)

unfoldable pub with_standard_fields : StandardFields → DefaultLogger → DefaultLogger
unfolding with_fields
with_standard_fields fields l = with_fields fields l
