-- ===== src/Protocol/Names.antt =====
-- The tags, response types, error codes and state names of the protocol.
use bluepy.Common.{Text, codes}

abbrev pub tag_response : Text
tag_response = codes "rsp"

abbrev pub tag_errcode : Text
tag_errcode = codes "code"

abbrev pub tag_errstat : Text
tag_errstat = codes "estat"

abbrev pub tag_errmsg : Text
tag_errmsg = codes "emsg"

abbrev pub tag_handle : Text
tag_handle = codes "hnd"

abbrev pub tag_uuid : Text
tag_uuid = codes "uuid"

abbrev pub tag_data : Text
tag_data = codes "d"

abbrev pub tag_connstate : Text
tag_connstate = codes "state"

abbrev pub tag_sec_level : Text
tag_sec_level = codes "sec"

abbrev pub tag_mtu : Text
tag_mtu = codes "mtu"

abbrev pub tag_device : Text
tag_device = codes "dst"

abbrev pub tag_range_start : Text
tag_range_start = codes "hstart"

abbrev pub tag_range_end : Text
tag_range_end = codes "hend"

abbrev pub tag_properties : Text
tag_properties = codes "props"

abbrev pub tag_value_handle : Text
tag_value_handle = codes "vhnd"

abbrev pub tag_addr : Text
tag_addr = codes "addr"

abbrev pub tag_type : Text
tag_type = codes "type"

abbrev pub tag_rssi : Text
tag_rssi = codes "rssi"

abbrev pub tag_flag : Text
tag_flag = codes "flag"

abbrev pub rsp_error : Text
rsp_error = codes "err"

abbrev pub rsp_status : Text
rsp_status = codes "stat"

abbrev pub rsp_notify : Text
rsp_notify = codes "ntfy"

abbrev pub rsp_ind : Text
rsp_ind = codes "ind"

abbrev pub rsp_discovery : Text
rsp_discovery = codes "find"

abbrev pub rsp_descriptors : Text
rsp_descriptors = codes "desc"

abbrev pub rsp_read : Text
rsp_read = codes "rd"

abbrev pub rsp_write : Text
rsp_write = codes "wr"

abbrev pub rsp_mgmt : Text
rsp_mgmt = codes "mgmt"

abbrev pub rsp_scan : Text
rsp_scan = codes "scan"

abbrev pub rsp_oob : Text
rsp_oob = codes "oob"

abbrev pub err_conn_fail : Text
err_conn_fail = codes "connfail"

abbrev pub err_att_err : Text
err_att_err = codes "atterr"

abbrev pub err_mgmt_err : Text
err_mgmt_err = codes "mgmterr"

abbrev pub err_decoding : Text
err_decoding = codes "decodeerr"

abbrev pub err_send_fail : Text
err_send_fail = codes "sendfail"

abbrev pub err_call_fail : Text
err_call_fail = codes "callfail"

abbrev pub err_not_found : Text
err_not_found = codes "notfound"

abbrev pub err_bad_cmd : Text
err_bad_cmd = codes "badcmd"

abbrev pub err_bad_param : Text
err_bad_param = codes "badparam"

abbrev pub err_bad_state : Text
err_bad_state = codes "badstate"

abbrev pub err_busy : Text
err_busy = codes "busy"

abbrev pub err_no_mgmt : Text
err_no_mgmt = codes "nomgmt"

abbrev pub err_success : Text
err_success = codes "success"

abbrev pub st_disconnected : Text
st_disconnected = codes "disc"

abbrev pub st_connecting : Text
st_connecting = codes "tryconn"

abbrev pub st_connected : Text
st_connected = codes "conn"

abbrev pub st_scanning : Text
st_scanning = codes "scan"
