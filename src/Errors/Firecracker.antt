-- ===== src/Errors/Firecracker.antt =====
-- The sentinels of pkg/runtimes/firecracker: runtime.go, machine.go and snapshotter.go.
pub data FirecrackerError : Type 0 where
  could_not_open_config_file : FirecrackerError
  could_not_decode_config_file : FirecrackerError
  could_not_resume_runner : FirecrackerError
  could_not_remove_vm_dir : FirecrackerError
  could_not_resume_snapshot : FirecrackerError
  could_not_set_boot_source : FirecrackerError
  could_not_set_drive : FirecrackerError
  could_not_set_machine_config : FirecrackerError
  could_not_set_vsock : FirecrackerError
  could_not_set_network_interfaces : FirecrackerError
  could_not_start_instance : FirecrackerError
  no_socket_created : FirecrackerError
  firecracker_exited : FirecrackerError
  could_not_create_vm_path_directory : FirecrackerError
  could_not_start_firecracker_server : FirecrackerError
  could_not_close_server : FirecrackerError
  could_not_open_input_file : FirecrackerError
  could_not_create_output_file : FirecrackerError
  could_not_copy_file : FirecrackerError
  could_not_write_padding : FirecrackerError
  could_not_copy_device_file : FirecrackerError
  could_not_start_vm : FirecrackerError
  could_not_marshal_package_config : FirecrackerError
  could_not_open_package_config_file : FirecrackerError
  could_not_write_package_config : FirecrackerError
  could_not_chown_package_config_file : FirecrackerError
  could_not_create_chroot_base_directory : FirecrackerError
  could_not_create_snapshot : FirecrackerError
  could_not_open_source_file : FirecrackerError
  could_not_create_destination_file : FirecrackerError
  could_not_copy_file_content : FirecrackerError
  could_not_change_file_owner : FirecrackerError
  could_not_start_agent_server : FirecrackerError
  could_not_open_liveness_server : FirecrackerError
  could_not_chown_liveness_server_vsock : FirecrackerError
  could_not_chown_agent_server_vsock : FirecrackerError
  could_not_receive_and_close_liveness_server : FirecrackerError
  could_not_before_suspend : FirecrackerError
  could_not_call_before_suspend_rpc : FirecrackerError
  -- `errors.New` on the spot: a short copy, and a read of another length
  short_writeback : FirecrackerError
  could_not_check_memory : FirecrackerError
  unknown_cpu : FirecrackerError
