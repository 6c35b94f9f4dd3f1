-- ===== src/Types/Nrc.antt =====
-- include/zephyr/canbus/uds_types.h: the negative response codes.
use zephyr_uds.Base.{ℕ}

abbrev pub service_not_supported : ℕ
service_not_supported = 0x11

abbrev pub sub_function_not_supported : ℕ
sub_function_not_supported = 0x12

abbrev pub incorrect_length_or_invalid_format : ℕ
incorrect_length_or_invalid_format = 0x13

abbrev pub conditions_not_correct : ℕ
conditions_not_correct = 0x22

abbrev pub request_sequence_error : ℕ
request_sequence_error = 0x24

abbrev pub request_out_of_range : ℕ
request_out_of_range = 0x31

abbrev pub security_access_denied : ℕ
security_access_denied = 0x33

abbrev pub invalid_key : ℕ
invalid_key = 0x35

abbrev pub exceeded_number_of_attempts : ℕ
exceeded_number_of_attempts = 0x36

abbrev pub upload_download_not_accepted : ℕ
upload_download_not_accepted = 0x70

abbrev pub transfer_data_suspended : ℕ
transfer_data_suspended = 0x71

abbrev pub wrong_block_sequence_counter : ℕ
wrong_block_sequence_counter = 0x73

abbrev pub response_pending : ℕ
response_pending = 0x78

abbrev pub sub_function_not_supported_in_active_sess : ℕ
sub_function_not_supported_in_active_sess = 0x7E

abbrev pub service_not_supported_in_active_session : ℕ
service_not_supported_in_active_session = 0x7F
