-- ===== src/Errors/Devices.antt =====
-- The sentinels of the migrations, the liveness server, the vsock connections and the loop mount.

-- pkg/common/migrations.go
pub data MigrationError : Type 0 where
  could_not_create_device_directory : MigrationError
  could_not_get_base_device_stat : MigrationError
  could_not_create_overlay_directory : MigrationError
  could_not_create_state_directory : MigrationError
  could_not_use_overlays : MigrationError
  could_not_get_nbd_device_stat : MigrationError
  could_not_create_device_node : MigrationError

-- pkg/ipc/liveness.go
pub data LivenessError : Type 0 where
  could_not_dial_liveness_vsock_connection : LivenessError
  could_not_accept_liveness_client : LivenessError
  could_not_listen_in_liveness_server : LivenessError
  liveness_server_context_cancelled : LivenessError

-- pkg/runtimes/firecracker/vsock
pub data VsockError : Type 0 where
  vsock_connection_bad_file_descriptor : VsockError
  could_not_shutdown_vsock_connection : VsockError
  could_not_close_vsock_conn : VsockError
  vsock_socket_creation_failed : VsockError
  vsock_connect_failed : VsockError

-- pkg/utils/loop.go
pub data LoopError : Type 0 where
  could_not_attach_device : LoopError
  could_not_detach_device : LoopError
